-- ===== src/Orders/Names.antt =====
-- The text of a bound account's name, as `approve_panel_order` of web_api.py makes it.
use pasarguard_control_plane.Base.{
  ℕ, zero, suc, ◌/◌, ◌%◌, String, str_eq, Bool, ◌||◌, ◌&&◌, Option, some, none, ◌==◌, leb,
  if◌then◌else◌,
}
use pasarguard_control_plane.Store.Rows.{PanelOrder}
use Prim.Native.Char.{code}
use Prim.Native.String.{◌++◌}

-- the characters that `strip` takes off
unfoldable pub is_space : ℕ → Bool
is_space c =
    (leb 9 c && leb c 13)
    || (leb 28 c && leb c 32)
    || c == 133
    || c == 160
    || c == 5760
    || (leb 8192 c && leb c 8202)
    || c == 8232
    || c == 8233
    || c == 8239
    || c == 8287
    || c == 12288

unfoldable pub strip_left : String → String
unfolding is_space
strip_left String.[] = ""
strip_left (String.◌∷◌ c s) =
    let rest = strip_left s in if is_space (code c) then rest else String.◌∷◌ c s

unfoldable pub strip_right : String → String
unfolding is_space
strip_right String.[] = ""
strip_right (String.◌∷◌ c s) =
    let rest = strip_right s in
    if is_space (code c) && str_eq rest "" then "" else String.◌∷◌ c rest

-- the first characters of a text
unfoldable pub cut : ℕ → String → String
cut zero s = ""
cut (suc n) String.[] = ""
cut (suc n) (String.◌∷◌ c s) = String.◌∷◌ c (cut n s)

abbrev text_or_empty : Option String → String
text_or_empty none = ""
text_or_empty (some s) = s

-- an account that arrives with the approval, where the quote named none
unfoldable pub attach_account : Option ℕ → Option ℕ → Option String → PanelOrder → PanelOrder
unfolding strip_left strip_right cut
attach_account (some given) none username order = record order {
  pg_admin_id = some given;
  admin_username = cut 80 (strip_left (strip_right (text_or_empty username)));
}
attach_account _ _ username order = order

-- decimal digits, as `str` writes them; the fuel n + 1 is enough for n
unfoldable pub digit : ℕ → String
digit n =
    if n == 0
    then "0"
    else if n == 1
    then "1"
    else if n == 2
    then "2"
    else if n == 3
    then "3"
    else if n == 4
    then "4"
    else if n == 5
    then "5"
    else if n == 6
    then "6"
    else if n == 7
    then "7"
    else if n == 8
    then "8"
    else "9"

unfoldable pub decimal_from : ℕ → ℕ → String → String
unfolding digit
decimal_from zero n tail = tail
decimal_from (suc fuel) n tail =
    let rest = decimal_from fuel (n / 10) (digit (n % 10) ++ tail) in
    if n / 10 == 0 then digit (n % 10) ++ tail else rest

unfoldable pub show : ℕ → String
unfolding decimal_from
show n = decimal_from (suc n) n ""
