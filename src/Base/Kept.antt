-- ===== src/Base/Kept.antt =====
-- A property of the state that a call keeps, whether it returns or raises, and its rules for the
-- ways in which calls are put together.
use mathlib.Core.Bool.{Bool, true, false}
use pasarguard_control_plane.Base.Tests.{if◌then◌else◌}
use pasarguard_control_plane.Base.Results.{Result, ok, err, Action, lift, follow, ◌>>=◌, ◌>>◌}

abbrev pub Keeps {ℓ} : {S A : Type 0} → (S → Type ℓ) → Action S A → Type ℓ
Keeps {S} P m = (s : S) → P s → P (m s).1

pub follow_keeps {ℓ} :
    {S A B : Type 0} (P : S → Type ℓ) (f : A → Action S B) (r : Result A × S)
    → ((a : A) → Keeps P (f a))
    → P r.1
    → P (follow f r).1
follow_keeps P f (ok a, s) k h = k a s h
follow_keeps P f (err e, s) k h = h

module _ {ℓ} {S : Type 0} (P : S → Type ℓ) where
  pub >>=-Keeps :
      {A B : Type 0} (m : Action S A) (f : A → Action S B)
      → Keeps P m
      → ((a : A) → Keeps P (f a))
      → Keeps P (m >>= f)
  >>=-Keeps m f h k s p = follow_keeps P f (m s) k (h s p)

  pub >>-Keeps :
      {A B : Type 0} (m : Action S A) (k : Action S B) → Keeps P m → Keeps P k → Keeps P (m >> k)
  >>-Keeps m k h g = >>=-Keeps m (λ _. k) h (λ _. g)

  pub lift-Keeps : {A : Type 0} (r : Result A) → Keeps P (lift {S = S} r)
  lift-Keeps r s p = p

  pub if_Keeps :
      {A : Type 0} (b : Bool) (m n : Action S A)
      → Keeps P m
      → Keeps P n
      → Keeps P (if b then m else n)
  if_Keeps true m n h k = h
  if_Keeps false m n h k = k
