-- ===== src/Chat/Spells.antt =====
-- Texts that spell digits, and what number makes of them
-- (src/control_plane/telegram_consumer.py: number).
use pasarguard_control_plane.Base.{
  ℕ, zero, suc, ◌+◌, ◌-◌, ◌<◌, ◌≡◌, refl, sym, ap, ◌∙◌, String, true, false, some, ◌==◌, arith,
}
use Prim.Native.Char.{Char, code}
use Prim.Native.String.{◌++◌}
use Prim.Native.String.append
use pasarguard_control_plane.Orders.Names.{digit}
use pasarguard_control_plane.Chat.Digits.{Script, translate, drop_commas, is_persian}

-- What Python's tables say of the ten ASCII digits.
pub record ReadsAscii (script : Script) : Type 0 where
  pub digits : (k : ℕ) → k < 10 → script.is_digit (48 + k) ≡ true
  pub values : (k : ℕ) → k < 10 → script.decimal (48 + k) ≡ some k

-- A text that spells decimal digits: each in ASCII or as a Persian digit, with commas anywhere.
pub data Spells : String → String → Type 0 where
  done : Spells "" ""
  comma : (c : Char) {t s : String} → code c ≡ b',' → Spells t s → Spells (String.◌∷◌ c t) s
  ascii :
      (c : Char) (k : ℕ) {t s : String}
      → k < 10
      → code c ≡ 48 + k
      → Spells t s
      → Spells (String.◌∷◌ c t) (String.◌∷◌ c s)
  persian :
      (c : Char) (k : ℕ) {t s : String}
      → k < 10
      → code c ≡ 0x6f0 + k
      → Spells t s
      → Spells (String.◌∷◌ c t) (digit k ++ s)

-- the character of a decimal digit
pub digit_char : ℕ → Char
digit_char zero = "0"
digit_char (suc zero) = "1"
digit_char (suc (suc zero)) = "2"
digit_char (suc (suc (suc zero))) = "3"
digit_char (suc (suc (suc (suc zero)))) = "4"
digit_char (suc (suc (suc (suc (suc zero))))) = "5"
digit_char (suc (suc (suc (suc (suc (suc zero)))))) = "6"
digit_char (suc (suc (suc (suc (suc (suc (suc zero))))))) = "7"
digit_char (suc (suc (suc (suc (suc (suc (suc (suc zero)))))))) = "8"
digit_char _ = "9"

pub digit_cons : (k : ℕ) (s : String) → digit k ++ s ≡ String.◌∷◌ (digit_char k) s
unfolding digit digit_char
digit_cons zero s = rw append.cons (rw append.nil refl)
digit_cons (suc zero) s = rw append.cons (rw append.nil refl)
digit_cons (suc (suc zero)) s = rw append.cons (rw append.nil refl)
digit_cons (suc (suc (suc zero))) s = rw append.cons (rw append.nil refl)
digit_cons (suc (suc (suc (suc zero)))) s = rw append.cons (rw append.nil refl)
digit_cons (suc (suc (suc (suc (suc zero))))) s = rw append.cons (rw append.nil refl)
digit_cons (suc (suc (suc (suc (suc (suc zero)))))) s = rw append.cons (rw append.nil refl)
digit_cons (suc (suc (suc (suc (suc (suc (suc zero))))))) s = rw append.cons (rw append.nil refl)
digit_cons (suc (suc (suc (suc (suc (suc (suc (suc zero)))))))) s =
    rw append.cons (rw append.nil refl)
digit_cons (suc (suc (suc (suc (suc (suc (suc (suc (suc k))))))))) s =
    ground (arith, append.cons "9" "" s, append.nil s)

pub code-digit_char : (k : ℕ) → k < 10 → code (digit_char k) ≡ 48 + k
unfolding digit_char
code-digit_char zero h = refl
code-digit_char (suc zero) h = refl
code-digit_char (suc (suc zero)) h = refl
code-digit_char (suc (suc (suc zero))) h = refl
code-digit_char (suc (suc (suc (suc zero)))) h = refl
code-digit_char (suc (suc (suc (suc (suc zero))))) h = refl
code-digit_char (suc (suc (suc (suc (suc (suc zero)))))) h = refl
code-digit_char (suc (suc (suc (suc (suc (suc (suc zero))))))) h = refl
code-digit_char (suc (suc (suc (suc (suc (suc (suc (suc zero)))))))) h = refl
code-digit_char (suc (suc (suc (suc (suc (suc (suc (suc (suc k))))))))) h = ground arith

translate_digit :
    (c : Char) (k : ℕ) (t : String)
    → k < 10
    → code c ≡ 0x6f0 + k
    → translate (String.◌∷◌ c t) ≡ String.◌∷◌ (digit_char k) (translate t)
unfolding translate
translate_digit c k t h e =
    let persian : is_persian (code c) ≡ true = ground (arith, e) in
    let place : code c - 0x6f0 ≡ k = omega arith in rw (persian, place) (digit_cons k (translate t))

translate_other :
    (c : Char) (t : String)
    → code c < 0x6f0
    → translate (String.◌∷◌ c t) ≡ String.◌∷◌ c (translate t)
unfolding translate
translate_other c t h = let plain : is_persian (code c) ≡ false = ground arith in rw plain refl

drop_commas_digit :
    (c : Char) (k : ℕ) (t : String)
    → code c ≡ 48 + k
    → drop_commas (String.◌∷◌ c t) ≡ String.◌∷◌ c (drop_commas t)
unfolding drop_commas
drop_commas_digit c k t e = let plain : (code c == b',') ≡ false = ground arith in rw plain refl

drop_commas_comma :
    (c : Char) (t : String) → code c ≡ b',' → drop_commas (String.◌∷◌ c t) ≡ drop_commas t
unfolding drop_commas
drop_commas_comma c t e = let plain : (code c == b',') ≡ true = ground arith in rw plain refl

pub spelled_digits : {t s : String} → Spells t s → drop_commas (translate t) ≡ s
unfolding drop_commas translate
spelled_digits done = refl
spelled_digits (comma c {t} {s} e r) =
    ap drop_commas (translate_other c t (omega arith))
    ∙ drop_commas_comma c (translate t) e
    ∙ spelled_digits r
spelled_digits (ascii c k {t} {s} h e r) =
    ap drop_commas (translate_other c t (omega arith))
    ∙ drop_commas_digit c k (translate t) e
    ∙ ap (String.◌∷◌ c) (spelled_digits r)
spelled_digits (persian c k {t} {s} h e r) =
    ap drop_commas (translate_digit c k t h e)
    ∙ drop_commas_digit (digit_char k) k (translate t) (code-digit_char k h)
    ∙ ap (String.◌∷◌ (digit_char k)) (spelled_digits r)
    ∙ sym (digit_cons k s)
