-- ===== src/Chat/Callbacks.antt =====
-- The buttons' callback data, written as texts with "|" between their parts and read back by
-- handle_callback (src/control_plane/telegram_consumer.py). The text of an id is an argument: the
-- rows' ids are random texts, which the model numbers.
use pasarguard_control_plane.Base.{
  ℕ, String, str_eq, Bool, true, false, Option, some, none, List, [], ◌∷◌, ◌==◌, if◌then◌else◌,
}
use Prim.Native.Char.{code}
use Prim.Native.String.{◌++◌}

-- the ids of rows as texts, and back
pub record Ids : Type 0 where
  pub id_text : ℕ → String
  pub id_of : String → ℕ

-- What a press asks for. The last arguments of `node` and `order`, the section and the filter stay
-- the texts that they are.
pub data Callback : Type 0 where
  section : String → Callback
  nodes : ℕ → Callback
  node : ℕ → String → String → Callback
  funding : Bool → ℕ → Callback
  approval : ℕ → Bool → Callback
  sale : ℕ → Bool → Callback
  toggle_category toggle_plan : ℕ → Callback
  new_category new_plan : Callback
  plan_server : ℕ → Callback
  plan_shelf : Option ℕ → Callback
  order_plan order_server : ℕ → Callback
  queue : String → Callback
  order : ℕ → String → Callback

abbrev pub bar : String → String → String
bar a b = a ++ ("|" ++ b)

module _ (ids : Ids) where
  open ids use {id_text, id_of}

  abbrev shelf_text : Option ℕ → String
  shelf_text none = ""
  shelf_text (some c) = id_text c

  -- the f-strings of the keyboards
  unfoldable pub callback_text : Callback → String
  callback_text (Callback.section s) = bar "section" s
  callback_text (Callback.nodes p) = bar "nodes" (id_text p)
  callback_text (Callback.node p n a) = bar "node" (bar (id_text p) (bar n a))
  callback_text (Callback.funding true r) = bar "fundok" (id_text r)
  callback_text (Callback.funding false r) = bar "fundno" (id_text r)
  callback_text (Callback.approval r true) = bar "appr" (bar (id_text r) "ok")
  callback_text (Callback.approval r false) = bar "appr" (bar (id_text r) "no")
  callback_text (Callback.sale p true) = bar "sale" (bar (id_text p) "1")
  callback_text (Callback.sale p false) = bar "sale" (bar (id_text p) "0")
  callback_text (Callback.toggle_category c) = bar "ctog" (id_text c)
  callback_text (Callback.toggle_plan p) = bar "ptog" (id_text p)
  callback_text Callback.new_category = "catnew"
  callback_text Callback.new_plan = "plnew"
  callback_text (Callback.plan_server p) = bar "plsel" (id_text p)
  callback_text (Callback.plan_shelf c) = bar "plsh" (shelf_text c)
  callback_text (Callback.order_plan p) = bar "oplan" (id_text p)
  callback_text (Callback.order_server p) = bar "onew" (id_text p)
  callback_text (Callback.queue s) = bar "q" s
  callback_text (Callback.order o a) = bar "o" (bar (id_text o) a)

  -- `data.split("|")`: the first part, and the rest of them
  unfoldable pub split_bar : String → String × List String
  split_bar String.[] = ("", [])
  split_bar (String.◌∷◌ c s) =
      let rest = split_bar s in
      if code c == b'|' then ("", rest.0 ∷ rest.1) else (String.◌∷◌ c rest.0, rest.1)

  -- two parts
  unfoldable pub read_two : String → String → Option Callback
  read_two head a =
      if str_eq head "section"
      then some (Callback.section a)
      else if str_eq head "nodes"
      then some (Callback.nodes (id_of a))
      else if str_eq head "fundok"
      then some (Callback.funding true (id_of a))
      else if str_eq head "fundno"
      then some (Callback.funding false (id_of a))
      else if str_eq head "ctog"
      then some (Callback.toggle_category (id_of a))
      else if str_eq head "ptog"
      then some (Callback.toggle_plan (id_of a))
      else if str_eq head "plsel"
      then some (Callback.plan_server (id_of a))
      else if str_eq head "plsh"
      then some (Callback.plan_shelf (if str_eq a "" then none else some (id_of a)))
      else if str_eq head "oplan"
      then some (Callback.order_plan (id_of a))
      else if str_eq head "onew"
      then some (Callback.order_server (id_of a))
      else if str_eq head "q"
      then some (Callback.queue a)
      else none

  unfoldable pub read_three : String → String → String → Option Callback
  read_three head a b =
      if str_eq head "appr"
      then some (Callback.approval (id_of a) (str_eq b "ok"))
      else if str_eq head "sale"
      then some (Callback.sale (id_of a) (str_eq b "1"))
      else if str_eq head "o"
      then some (Callback.order (id_of a) b)
      else none

  -- the branches of handle_callback, by the number of parts that each asks for
  unfoldable pub read_parts : String → List String → Option Callback
  unfolding read_two read_three
  read_parts head [] =
      if str_eq head "catnew"
      then some Callback.new_category
      else if str_eq head "plnew"
      then some Callback.new_plan
      else none
  read_parts head (a ∷ []) = read_two head a
  read_parts head (a ∷ b ∷ []) = read_three head a b
  read_parts head (a ∷ b ∷ c ∷ []) =
      if str_eq head "node" then some (Callback.node (id_of a) b c) else none
  read_parts head (_ ∷ _ ∷ _ ∷ _ ∷ _) = none

  unfoldable pub read_callback : String → Option Callback
  unfolding split_bar read_parts
  read_callback text = let parts = split_bar text in read_parts parts.0 parts.1
