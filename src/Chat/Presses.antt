-- ===== src/Chat/Presses.antt =====
-- A press on a button reaches the handler that the button was made for (telegram_consumer.py).
use pasarguard_control_plane.Base.{
  ℕ, ◌≡◌, refl, String, str_eq, true, false, some, none, [], ◌∷◌, ◌==◌, arith,
}
use Prim.Native.Char.{code}
use Prim.Native.String.{◌++◌}
use Prim.Native.String.append
use pasarguard_control_plane.Chat.Callbacks.{
  Ids, Callback, callback_text, split_bar, read_two, read_three, read_parts, read_callback, bar,
}

-- no character of the text is a bar
abbrev pub HasNoBar : String → Type 0
HasNoBar String.[] = Unit
HasNoBar (String.◌∷◌ c s) = ((code c == b'|') ≡ false) × HasNoBar s

-- The texts of ids are not empty, hold no bar, and stand for one id each.
pub record IsIds (ids : Ids) : Type 0 where
  pub no_bar : (n : ℕ) → HasNoBar (ids.id_text n)
  pub some_text : (n : ℕ) → str_eq (ids.id_text n) "" ≡ false
  pub back : (n : ℕ) → ids.id_of (ids.id_text n) ≡ n

module _ (ids : Ids) where
  split_last : (s : String) → HasNoBar s → split_bar ids s ≡ (s, [])
  unfolding split_bar HasNoBar
  split_last String.[] h = refl
  split_last (String.◌∷◌ c s) h = rw (h.0, split_last s h.1) refl

  split_bar-bar :
      (a b : String)
      → HasNoBar a
      → split_bar ids (bar a b) ≡ (a, (split_bar ids b).0 ∷ (split_bar ids b).1)
  unfolding split_bar HasNoBar
  split_bar-bar String.[] b h = rw (append.nil ("|" ++ b), append.cons "|" "" b, append.nil b) refl
  split_bar-bar (String.◌∷◌ c s) b h =
      rw (append.cons c s ("|" ++ b), h.0, split_bar-bar s b h.1) refl

  two :
      (head a : String)
      → HasNoBar head
      → HasNoBar a
      → read_callback ids (bar head a) ≡ read_two ids head a
  unfolding read_callback read_parts
  two head a h k = rw (split_bar-bar head a h, split_last a k) refl

  three :
      (head a b : String)
      → HasNoBar head
      → HasNoBar a
      → HasNoBar b
      → read_callback ids (bar head (bar a b)) ≡ read_three ids head a b
  unfolding read_callback read_parts
  three head a b h k l =
      rw (split_bar-bar head (bar a b) h, split_bar-bar a b k, split_last b l) refl

  four :
      (a b c : String)
      → HasNoBar a
      → HasNoBar b
      → HasNoBar c
      → read_callback ids (bar "node" (bar a (bar b c))) ≡ some (Callback.node (ids.id_of a) b c)
  unfolding read_callback read_parts
  four a b c k l m =
      rw
        (
          split_bar-bar "node" (bar a (bar b c)) (ground arith),
          split_bar-bar a (bar b c) k,
          split_bar-bar b c l,
          split_last c m,
        )
        refl

one :
    (ids : Ids)
    → (read_callback ids "catnew" ≡ some Callback.new_category)
      × (read_callback ids "plnew" ≡ some Callback.new_plan)
unfolding read_callback split_bar read_parts
one ids = (refl, refl)

-- The texts that a button carries besides ids hold no bar.
abbrev pub IsPlain : Callback → Type 0
IsPlain (Callback.section s) = HasNoBar s
IsPlain (Callback.node p n a) = HasNoBar n × HasNoBar a
IsPlain (Callback.queue s) = HasNoBar s
IsPlain (Callback.order o a) = HasNoBar a
IsPlain _ = Unit

-- Every button of the bot, pressed, is read as the request that it was made for.
pub read_callback-callback_text :
    (ids : Ids) (c : Callback)
    → IsIds ids
    → IsPlain c
    → read_callback ids (callback_text ids c) ≡ some c
unfolding callback_text read_two read_three IsPlain
read_callback-callback_text ids (Callback.section s) i h = two ids "section" s (ground arith) h
read_callback-callback_text ids (Callback.nodes p) i h =
    rw (two ids "nodes" (ids.id_text p) (ground arith) (i.no_bar p), i.back p) refl
read_callback-callback_text ids (Callback.node p n a) i h =
    rw (four ids (ids.id_text p) n a (i.no_bar p) h.0 h.1, i.back p) refl
read_callback-callback_text ids (Callback.funding true r) i h =
    rw (two ids "fundok" (ids.id_text r) (ground arith) (i.no_bar r), i.back r) refl
read_callback-callback_text ids (Callback.funding false r) i h =
    rw (two ids "fundno" (ids.id_text r) (ground arith) (i.no_bar r), i.back r) refl
read_callback-callback_text ids (Callback.approval r true) i h =
    rw (three ids "appr" (ids.id_text r) "ok" (ground arith) (i.no_bar r) (ground arith), i.back r)
      refl
read_callback-callback_text ids (Callback.approval r false) i h =
    rw (three ids "appr" (ids.id_text r) "no" (ground arith) (i.no_bar r) (ground arith), i.back r)
      refl
read_callback-callback_text ids (Callback.sale r true) i h =
    rw (three ids "sale" (ids.id_text r) "1" (ground arith) (i.no_bar r) (ground arith), i.back r)
      refl
read_callback-callback_text ids (Callback.sale r false) i h =
    rw (three ids "sale" (ids.id_text r) "0" (ground arith) (i.no_bar r) (ground arith), i.back r)
      refl
read_callback-callback_text ids (Callback.toggle_category p) i h =
    rw (two ids "ctog" (ids.id_text p) (ground arith) (i.no_bar p), i.back p) refl
read_callback-callback_text ids (Callback.toggle_plan p) i h =
    rw (two ids "ptog" (ids.id_text p) (ground arith) (i.no_bar p), i.back p) refl
read_callback-callback_text ids Callback.new_category i h = (one ids).0
read_callback-callback_text ids Callback.new_plan i h = (one ids).1
read_callback-callback_text ids (Callback.plan_server p) i h =
    rw (two ids "plsel" (ids.id_text p) (ground arith) (i.no_bar p), i.back p) refl
read_callback-callback_text ids (Callback.plan_shelf none) i h = two ids "plsh" "" (ground arith) tt
read_callback-callback_text ids (Callback.plan_shelf (some p)) i h =
    rw (two ids "plsh" (ids.id_text p) (ground arith) (i.no_bar p), i.some_text p, i.back p) refl
read_callback-callback_text ids (Callback.order_plan p) i h =
    rw (two ids "oplan" (ids.id_text p) (ground arith) (i.no_bar p), i.back p) refl
read_callback-callback_text ids (Callback.order_server p) i h =
    rw (two ids "onew" (ids.id_text p) (ground arith) (i.no_bar p), i.back p) refl
read_callback-callback_text ids (Callback.queue s) i h = two ids "q" s (ground arith) h
read_callback-callback_text ids (Callback.order o a) i h =
    rw (three ids "o" (ids.id_text o) a (ground arith) (i.no_bar o) h, i.back o) refl
