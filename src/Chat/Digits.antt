-- ===== src/Chat/Digits.antt =====
-- Numbers as people type them (src/control_plane/telegram_consumer.py: number, money, and the
-- checks `isdigit` and `int` of the dialogues).
use pasarguard_control_plane.Base.{
  ℕ, ◌+◌, ◌-◌, ◌*◌, ◌%◌, String, str_eq, Bool, true, not, ◌&&◌, Option, some, none, leb, ltb, ◌==◌,
  if◌then◌else◌, Result, ok, err, value_error,
}
use Prim.Native.Char.{code}
use Prim.Native.String.{◌++◌, count}
use pasarguard_control_plane.Orders.Names.{strip_left, strip_right, digit, show}

-- Python's tables of characters: `str.isdigit`, and the digits that `int` reads.
pub record Script : Type 0 where
  pub is_digit : ℕ → Bool
  pub decimal : ℕ → Option ℕ

unfoldable pub strip : String → String
unfolding strip_left strip_right
strip s = strip_left (strip_right s)

abbrev pub is_persian : ℕ → Bool
is_persian c = leb 0x6f0 c && leb c 0x6f9

-- Persian digits become ASCII digits
unfoldable pub translate : String → String
translate String.[] = ""
translate (String.◌∷◌ c s) =
    let rest = translate s in
    if is_persian (code c) then digit (code c - 0x6f0) ++ rest else String.◌∷◌ c rest

unfoldable pub drop_commas : String → String
drop_commas String.[] = ""
drop_commas (String.◌∷◌ c s) =
    let rest = drop_commas s in if code c == b',' then rest else String.◌∷◌ c rest

unfoldable pub number : String → String
unfolding translate drop_commas strip
number value = strip (drop_commas (translate value))

module _ (script : Script) where
  unfoldable pub all_digits : String → Bool
  all_digits String.[] = true
  all_digits (String.◌∷◌ c s) = script.is_digit (code c) && all_digits s

  unfoldable pub isdigit : String → Bool
  unfolding all_digits
  isdigit s = not (str_eq s "") && all_digits s

  unfoldable pub int_from : ℕ → String → Result ℕ
  int_from n String.[] = ok n
  int_from n (String.◌∷◌ c s) = elim (script.decimal (code c)) [
    | none ↦ err value_error
    | some k ↦ int_from (n * 10 + k) s
  ]

  -- `int` of a text that `isdigit` has let through
  unfoldable pub int : String → Result ℕ
  unfolding int_from
  int s = int_from 0 s

  -- the number of an answer, or none where the dialogue asks again
  unfoldable pub whole : String → Option (Result ℕ)
  unfolding isdigit int
  whole s = if isdigit s then some (int s) else none

-- `f"{n:,}"`, over the decimal digits of n
unfoldable pub grouped : String → String
grouped String.[] = ""
grouped (String.◌∷◌ c s) =
    let rest = grouped s in
    String.◌∷◌ c (if ltb 0 (count s) && count s % 3 == 0 then "," ++ rest else rest)

-- an amount as the bot writes it, without the name of the currency
unfoldable pub money : ℕ → String
unfolding grouped show
money n = grouped (show n)
