-- ===== src/Base/Ensures.antt =====
-- What a call ensures when it returns: nothing is said of a call that raises.
use mathlib.Core.Path.{◌≡◌, refl, sym, subst}
use mathlib.Core.Option.{Option, none, some}
use mathlib.Core.Bool.{Bool, true, false}
use pasarguard_control_plane.Base.Tests.{if◌then◌else◌}
use pasarguard_control_plane.Base.Results.{
  Error, Result, ok, err, Action, lift, or_raise, raise_if, follow,
}

module _ {S A : Type 0} where
  abbrev pub Post : (A → S → Type 0) → Result A × S → Type 0
  Post R (ok a, s) = R a s
  Post R (err e, s) = Unit {0}

  pub Post-weaken :
      (R Q : A → S → Type 0) (r : Result A × S)
      → Post R r
      → ((a : A) (s : S) → R a s → Q a s)
      → Post Q r
  Post-weaken R Q (ok a, s) h k = k a s h
  Post-weaken R Q (err e, s) h k = tt

  -- a call that only reads: it ensures R of its result, in the state that it was made in
  abbrev pub Reads : S → (A → Type 0) → Result A × S → Type 0
  Reads s R = Post (λ a s'. (s' ≡ s) × R a)

  -- what any call returns is what it returns
  pub Post-self : (r : Result A × S) → Post (λ a s. r ≡ (ok a, s)) r
  Post-self (ok a, s) = refl
  Post-self (err e, s) = tt

  pub lift-Reads : (s : S) (r : Result A) → Reads s (λ a. r ≡ ok a) (lift r s)
  lift-Reads s (ok a) = (refl, refl)
  lift-Reads s (err e) = tt

  -- and its result is the one that it has
  pub Reads-result :
      (s : S) (R : A → Type 0) (r : Result A × S)
      → Reads s R r
      → Reads s (λ a. (r.0 ≡ ok a) × R a) r
  Reads-result s R (ok a, s') (e, h) = (e, (refl, h))
  Reads-result s R (err e, s') h = tt

module _ {S A B : Type 0} (f : A → Action S B) where
  pub Post-follow :
      (R : A → S → Type 0) (Q : B → S → Type 0) (r : Result A × S)
      → Post R r
      → ((a : A) (s : S) → R a s → Post Q (f a s))
      → Post Q (follow f r)
  Post-follow R Q (ok a, s) h k = k a s h
  Post-follow R Q (err e, s) h k = tt

  pub Reads-follow :
      (s : S) (R : A → Type 0) (Q : B → S → Type 0) (r : Result A × S)
      → Reads s R r
      → ((a : A) → R a → Post Q (f a s))
      → Post Q (follow f r)
  Reads-follow s R Q (ok a, s') (e, h) k = subst (λ z. Post Q (f a z)) (sym e) (k a h)
  Reads-follow s R Q (err e, s') h k = tt

module _ {S : Type 0} (s : S) (e : Error) where
  pub lift_if_Reads :
      (b : Bool) → Reads s (λ _. b ≡ true) (lift (if b then ok (tt {0}) else err e) s)
  lift_if_Reads true = (refl, refl)
  lift_if_Reads false = tt

  pub or_raise-Reads : {A : Type 0} (o : Option A) → Reads s (λ a. o ≡ some a) (or_raise o e s)
  or_raise-Reads none = tt
  or_raise-Reads (some a) = (refl, refl)

  pub raise_if-Reads : (b : Bool) → Reads s (λ _. b ≡ false) (raise_if b e s)
  raise_if-Reads true = tt
  raise_if-Reads false = (refl, refl)
