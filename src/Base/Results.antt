-- ===== src/Base/Results.antt =====
-- Results, and calls that read and write a state and may raise. The state comes back after a
-- raise too, since what a session has written stays written until it is rolled back.
use mathlib.Core.Path.{◌≡◌, ap}
use mathlib.Core.Bool.{Bool}
use mathlib.Core.Option.{Option, none, some}
use Prim.Native.Nat.{ℕ}
use pasarguard_control_plane.Base.Tests.{if◌then◌else◌}

-- The exceptions: the ValueErrors of the kernel by their messages, `BillingHold` with its fields,
-- and an HTTPException by its status code. The last line is raised around the chat only: a
-- PermissionError, which the caller is told, a form that pydantic refuses, a ValueError, a KeyError
-- and a message that Telegram does not take.
pub data Error : Type 0 where
  negative_usage amount_not_positive org_not_found suspended insufficient_credit : Error
  hierarchy_cycle contract_missing binding_not_found : Error
  integrity_error : Error
  billing_hold : ℕ → ℕ → ℕ → Error
  http : ℕ → Error
  permission_error validation_error value_error key_error telegram_error attribute_error : Error

pub data Result {ℓ} (A : Type ℓ) : Type ℓ where
  ok : A → Result A
  err : Error → Result A

abbrev pub Action : Type 0 → Type 0 → Type 0
Action S A = S → Result A × S

module _ {S A : Type 0} where
  abbrev pub pure : A → Action S A
  pure a s = (ok a, s)

  abbrev pub raise : Error → Action S A
  raise e s = (err e, s)

  abbrev pub gets : (S → A) → Action S A
  gets f s = (ok (f s), s)

  abbrev pub lift : Result A → Action S A
  lift r s = (r, s)

  abbrev pub or_raise : Option A → Error → Action S A
  or_raise none e = raise e
  or_raise (some a) _ = pure a

module _ {S : Type 0} where
  abbrev pub modify : (S → S) → Action S (Unit {0})
  modify f s = (ok tt, f s)

  abbrev pub raise_if : Bool → Error → Action S (Unit {0})
  raise_if c e s = (if c then err e else ok tt, s)

-- how a chain goes on from what its first call has come to
abbrev pub follow : {S A B : Type 0} → (A → Action S B) → Result A × S → Result B × S
follow f (ok a, s) = f a s
follow f (err e, s) = (err e, s)

infixl 5 ◌>>=◌ ◌>>◌
abbrev pub ◌>>=◌ : {S A B : Type 0} → Action S A → (A → Action S B) → Action S B
◌>>=◌ m f s = follow f (m s)

abbrev pub ◌>>◌ : {S A B : Type 0} → Action S A → Action S B → Action S B
m >> k = m >>= λ _. k

module _ {S A B : Type 0} where
  -- how a chain goes on behind a call whose end is known
  pub >>=-ok :
      (m : Action S A) (f : A → Action S B) (s : S) {a : A} {s' : S}
      → m s ≡ (ok a, s')
      → (m >>= f) s ≡ f a s'
  >>=-ok m f s e = ap (follow f) e

  pub >>=-err :
      (m : Action S A) (f : A → Action S B) (s : S) {x : Error} {s' : S}
      → m s ≡ (err x, s')
      → (m >>= f) s ≡ (err x, s')
  >>=-err m f s e = ap (follow f) e
