-- ===== src/Chat/Spelling.antt =====
-- Numbers survive the way that people type them (telegram_consumer.py: number, money).
use pasarguard_control_plane.Base.{
  ℕ, zero, suc, ◌+◌, ◌*◌, ◌/◌, ◌%◌, ◌≤◌, ◌<◌, ◌≡◌, refl, sym, ap, subst, ◌∙◌, String, str_eq, true,
  false, ◌&&◌, some, ltb, ◌==◌, if◌then◌else◌, ok, arith, inl, inr, Bool-cases,
}
use Prim.Native.Char.{Char, code}
use Prim.Native.String.{◌++◌, count}
use Prim.Native.String.append
use Prim.Native.String.compare
use pasarguard_control_plane.Orders.Names.{
  strip_left, strip_right, digit, is_space, decimal_from, show,
}
use pasarguard_control_plane.Chat.Digits.{
  Script, strip, number, all_digits, isdigit, int_from, int, whole, grouped, money,
}
use pasarguard_control_plane.Chat.Spells.{
  ReadsAscii, Spells, digit_char, digit_cons, code-digit_char, spelled_digits,
}

-- A text of ASCII digits only.
AllDigits : String → Type 0
AllDigits String.[] = Unit
AllDigits (String.◌∷◌ c s) = ((k : ℕ) × (k < 10) × (code c ≡ 48 + k)) × AllDigits s

digit-AllDigits : (k : ℕ) (tail : String) → k < 10 → AllDigits tail → AllDigits (digit k ++ tail)
unfolding AllDigits
digit-AllDigits k tail lt h =
    subst AllDigits (sym (digit_cons k tail)) ((k, lt, code-digit_char k lt), h)

spelled-AllDigits : {t s : String} → Spells t s → AllDigits s
unfolding AllDigits
spelled-AllDigits Spells.done = tt
spelled-AllDigits (Spells.comma c e r) = spelled-AllDigits r
spelled-AllDigits (Spells.ascii c k h e r) = ((k, h, e), spelled-AllDigits r)
spelled-AllDigits (Spells.persian c k {t} {s} h e r) = digit-AllDigits k s h (spelled-AllDigits r)

digit_no_space : (n : ℕ) → 48 ≤ n → n < 58 → is_space n ≡ false
unfolding is_space
digit_no_space n lo hi = ground arith

strip_left-AllDigits : (s : String) → AllDigits s → strip_left s ≡ s
unfolding strip_left AllDigits
strip_left-AllDigits String.[] h = refl
strip_left-AllDigits (String.◌∷◌ c s) ((k, lt, e), r) =
    let plain : is_space (code c) ≡ false = digit_no_space (code c) (omega arith) (omega arith) in
    rw plain refl

strip_right-AllDigits : (s : String) → AllDigits s → strip_right s ≡ s
unfolding strip_right AllDigits
strip_right-AllDigits String.[] h = refl
strip_right-AllDigits (String.◌∷◌ c s) ((k, lt, e), r) =
    let plain : is_space (code c) ≡ false = digit_no_space (code c) (omega arith) (omega arith) in
    rw plain (ap (String.◌∷◌ c) (strip_right-AllDigits s r))

number-spelled : {t s : String} → Spells t s → number t ≡ s
unfolding number strip
number-spelled {t} {s} r =
    ap (λ z. strip_left (strip_right z)) (spelled_digits r)
    ∙ ap strip_left (strip_right-AllDigits s (spelled-AllDigits r))
    ∙ strip_left-AllDigits s (spelled-AllDigits r)

decimal_from-AllDigits :
    (fuel n : ℕ) (tail : String) → AllDigits tail → AllDigits (decimal_from fuel n tail)
unfolding decimal_from
decimal_from-AllDigits zero n tail h = h
decimal_from-AllDigits (suc fuel) n tail h =
    let longer : AllDigits (digit (n % 10) ++ tail) =
      digit-AllDigits (n % 10) tail (omega arith) h in
    elim (Bool-cases (n / 10 == 0)) [
      | inl last ↦ rw last longer
      | inr more ↦ rw more (decimal_from-AllDigits fuel (n / 10) (digit (n % 10) ++ tail) longer)
    ]

show-AllDigits : (n : ℕ) → AllDigits (show n)
unfolding show AllDigits
show-AllDigits n = decimal_from-AllDigits (suc n) n "" tt

cons_some : (c : Char) (s : String) → str_eq (String.◌∷◌ c s) "" ≡ false
cons_some c s = rw (compare.cons-nil c s) refl

IsSome : String → Type 0
IsSome s = str_eq s "" ≡ false

decimal_from-IsSome : (fuel n : ℕ) (tail : String) → IsSome tail → IsSome (decimal_from fuel n tail)
unfolding decimal_from IsSome
decimal_from-IsSome zero n tail h = h
decimal_from-IsSome (suc fuel) n tail h =
    let longer : IsSome (digit (n % 10) ++ tail) =
      rw (digit_cons (n % 10) tail) (cons_some (digit_char (n % 10)) tail) in
    elim (Bool-cases (n / 10 == 0)) [
      | inl last ↦ rw last longer
      | inr more ↦ rw more (decimal_from-IsSome fuel (n / 10) (digit (n % 10) ++ tail) longer)
    ]

show-IsSome : (n : ℕ) → str_eq (show n) "" ≡ false
unfolding show decimal_from IsSome
show-IsSome n =
    let one : IsSome (digit (n % 10) ++ "") =
      rw (digit_cons (n % 10) "") (cons_some (digit_char (n % 10)) "") in
    elim (Bool-cases (n / 10 == 0)) [
      | inl last ↦ rw last one
      | inr more ↦ rw more (decimal_from-IsSome n (n / 10) (digit (n % 10) ++ "") one)
    ]

grouped-Spells : (s : String) → AllDigits s → Spells (grouped s) s
unfolding grouped AllDigits
grouped-Spells String.[] h = Spells.done
grouped-Spells (String.◌∷◌ c s) ((k, lt, e), r) = Spells.ascii c k lt e (rest (grouped-Spells s r))
  where
    rest :
        Spells (grouped s) s
        → Spells (if ltb 0 (count s) && count s % 3 == 0 then "," ++ grouped s else grouped s) s
    rest tail = elim (Bool-cases (ltb 0 (count s) && count s % 3 == 0)) [
      | inl f ↦
          rw (f, append.cons "," "" (grouped s), append.nil (grouped s))
            (Spells.comma "," refl tail)
      | inr f ↦ rw f tail
    ]

module _ {script : Script} (ascii : ReadsAscii script) where
  all_digits-AllDigits : (s : String) → AllDigits s → all_digits script s ≡ true
  unfolding all_digits AllDigits
  all_digits-AllDigits String.[] h = refl
  all_digits-AllDigits (String.◌∷◌ c s) ((k, lt, e), r) =
      rw (e, ascii.digits k lt) (all_digits-AllDigits s r)

  int_from-digit :
      (n k : ℕ) (s : String)
      → k < 10
      → int_from script n (digit k ++ s) ≡ int_from script (n * 10 + k) s
  unfolding int_from
  int_from-digit n k s lt =
      rw (digit_cons k s, int_from, code-digit_char k lt, ascii.values k lt) refl

  int_from-decimal_from :
      (fuel n : ℕ) (tail : String)
      → n < fuel
      → int_from script 0 (decimal_from fuel n tail) ≡ int_from script n tail
  unfolding decimal_from
  int_from-decimal_from zero n tail h = elim h [ ]
  int_from-decimal_from (suc fuel) n tail h = elim (Bool-cases (n / 10 == 0)) [
    | inl last ↦ rw last (
        int_from-digit 0 (n % 10) tail (omega arith)
        ∙ ap (λ z. int_from script z tail) (ground (arith, last)))
    | inr more ↦ rw more (
        int_from-decimal_from fuel (n / 10) (digit (n % 10) ++ tail) (ground (arith, more))
        ∙ int_from-digit (n / 10) (n % 10) tail (omega arith)
        ∙ ap (λ z. int_from script z tail) (omega arith))
  ]

  int-show : (n : ℕ) → int script (show n) ≡ ok n
  unfolding int show int_from
  int-show n = int_from-decimal_from (suc n) n "" (omega arith)

  -- However a number is typed - its digits in ASCII or Persian, also mixed, and commas anywhere -
  -- the dialogues take it for that number.
  pub whole-Spells :
      (n : ℕ) (t : String) → Spells t (show n) → whole script (number t) ≡ some (ok n)
  unfolding whole isdigit
  whole-Spells n t spelled =
      rw
        (
          number-spelled spelled,
          show-IsSome n,
          all_digits-AllDigits (show n) (show-AllDigits n),
          int-show n,
        )
        refl

  -- An amount that the bot has written with separators is read back as that amount.
  pub whole-money : (n : ℕ) → whole script (number (money n)) ≡ some (ok n)
  unfolding money
  whole-money n = whole-Spells n (money n) (grouped-Spells (show n) (show-AllDigits n))
