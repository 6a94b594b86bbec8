-- ===== src/Chat/State.antt =====
-- What the bot keeps besides the tables: the dialogue that each chat is in, which Redis holds under
-- `bot-state:<chat>`, and the messages that it has sent (src/control_plane/telegram_consumer.py:
-- set_state, get_state, clear_state, send, answer_callback, notify_chats).
use pasarguard_control_plane.Base.{
  ℕ, String, Bool, not, Option, some, none, List, [], ◌∷◌, ◌==◌, if◌then◌else◌, Result, ok, err,
  permission_error, telegram_error, Action, pure, gets, modify, raise_if, ◌>>◌, where_rows,
}
use pasarguard_control_plane.Rbac.{Role, Permission}
use pasarguard_control_plane.Store.{Db, Env}
use pasarguard_control_plane.Store.Rows.{OrderStatus, PanelOrder, Plan}
use pasarguard_control_plane.Servers.{Upstream}
use pasarguard_control_plane.Store.Rows.{Panel}
use pasarguard_control_plane.Orders.Lists.{OrderRow, PlanRow}
use pasarguard_control_plane.Chat.Menus.{Section}
use pasarguard_control_plane.Chat.Callbacks.{Ids, Callback}
use pasarguard_control_plane.Chat.Digits.{Script}
use pasarguard_control_plane.Chat.Deals.{OrderPage}
use pasarguard_control_plane.Chat.Desk.{NodeCall}
use pasarguard_control_plane.Chat.Money.{FundingReply}

-- The steps of each flow, and the answers so far: an answer that has not been given is a key that
-- the JSON object does not have.
pub data OrderStep : Type 0 where
  business_name user_count daily_gib note : OrderStep

pub record OrderData : Type 0 where
  pub panel_id : ℕ
  pub plan_id : Option ℕ
  pub business_name : Option String
  pub user_count : Option ℕ
  pub daily_gib : Option ℕ

pub data QuoteStep : Type 0 where
  amount credit price instructions pg_admin_id : QuoteStep

pub record QuoteData : Type 0 where
  pub order_id : ℕ
  pub amount_irr : Option ℕ
  pub credit_limit_irr : Option ℕ
  pub price_per_gib_irr : Option ℕ
  pub instructions : Option String

pub data CategoryStep : Type 0 where
  name description : CategoryStep

pub data PlanStep : Type 0 where
  panel shelf name price_per_gib_irr daily_gib duration_days user_count : PlanStep
  credit_limit_irr instructions : PlanStep

pub record PlanData : Type 0 where
  pub panel_id : Option ℕ
  pub category_id : Option ℕ
  pub name : Option String
  pub price_per_gib_irr : Option ℕ
  pub daily_gib : Option ℕ
  pub duration_days : Option ℕ
  pub user_count : Option ℕ
  pub credit_limit_irr : Option ℕ
  pub instructions : Option String

pub data ResellerStep : Type 0 where
  name slug telegram_id price credit : ResellerStep

pub record ResellerData : Type 0 where
  pub name : Option String
  pub slug : Option String
  pub telegram_id : Option String
  pub price : Option String

pub data Dialogue : Type 0 where
  order : OrderStep → OrderData → Dialogue
  quote : QuoteStep → QuoteData → Dialogue
  category : CategoryStep → Option String → Dialogue
  plan : PlanStep → PlanData → Dialogue
  attach : ℕ → Dialogue
  credit : Dialogue
  reseller : ResellerStep → ResellerData → Dialogue

-- The questions that a dialogue asks.
pub data Question : Type 0 where
  order : OrderStep → Question
  quote : QuoteStep → Question
  category : CategoryStep → Question
  plan : PlanStep → Question
  attach credit : Question
  reseller : ResellerStep → Question

-- What a message says, without its wording.
pub data Notice : Type 0 where
  ask ask_again : Question → Notice
  cancelled welcome welcome_back choose_section choose_from_menu done loading : Notice
  own_id : ℕ → Notice
  denial : Permission → Notice
  refused : Notice
  failed : Notice
  plan_gone begin_plan_first invalid_command : Notice
  plan_chosen : PlanRow → Notice
  order_placed : OrderRow → Notice
  new_order : OrderRow → Notice
  price_is_known follow_your_orders : Notice
  price_recorded : Notice
  order_priced : OrderRow → Notice
  shelf_made : String → Notice
  plan_made : Plan → Notice
  refresh_orders : Notice
  credit_requested : Notice
  credit_wanted : String → ℕ → Notice
  reseller_made : String → Notice
  reseller_failed : Notice
  order_moved : OrderStatus → Notice
  payment_declared : PanelOrder → Notice
  admin_needed decision_recorded : Notice
  order_decided : Bool → Notice
  customer_approved : PanelOrder → Notice
  customer_rejected : Notice
  funding_decided : FundingReply → Notice
  funding_answer : Bool → Notice
  approval_decided : Bool → Notice
  saleable_set : Bool → Notice
  catalog_toggled : Bool → Notice
  node_done : NodeCall → Notice
  node_status : String → Notice
  order_page : OrderPage → Notice
  orders_page : List OrderRow → Notice
  no_orders no_account ticket_sent : Notice
  page : Section → Notice
  nodes_page plan_servers plan_shelves : Notice

pub data Keyboard : Type 0 where
  bare : Keyboard
  menu : Role → Keyboard
  buttons : List (List Callback) → Keyboard
  webapp : Keyboard

pub data Sent : Type 0 where
  message : ℕ → Notice → Keyboard → Sent
  -- the short text over the pressed button
  toast : Notice → Sent

pub record Bot : Type 0 where
  pub db : Db
  pub states : List (ℕ × Dialogue)
  pub sent : List Sent

-- What the bot takes from outside: the environment, the time, Python's character tables, the texts
-- of ids, random slugs, whether Telegram takes a message to a chat and the answer to a press, and
-- what a server answers.
pub record World : Type 0 where
  pub env : Env
  pub now : ℕ
  pub script : Script
  pub ids : Ids
  pub draws : List String
  pub delivers : ℕ → Bool
  pub answers : Bool
  pub nodes : Panel → Upstream (List (String × Bool))
  pub run : NodeCall → ℕ → Panel → Upstream String

-- a call on the tables
unfoldable pub on_db : {A : Type 0} → Action Db A → Action Bot A
on_db m b = let (r, d) = m b.db in (r, record b { db = d })

abbrev pub without : ℕ → List (ℕ × Dialogue) → List (ℕ × Dialogue)
without chat states = where_rows (λ e. not (e.0 == chat)) states

unfoldable pub set_state : ℕ → Dialogue → Action Bot (Unit {0})
set_state chat state = modify (λ b. record b { states = (chat, state) ∷ without chat b.states })

unfoldable pub state_of : ℕ → List (ℕ × Dialogue) → Option Dialogue
state_of chat [] = none
state_of chat ((c, s) ∷ rest) = if c == chat then some s else state_of chat rest

unfoldable pub get_state : ℕ → Action Bot (Option Dialogue)
unfolding state_of
get_state chat = gets (λ b. state_of chat b.states)

unfoldable pub clear_state : ℕ → Action Bot (Unit {0})
clear_state chat = modify (λ b. record b { states = without chat b.states })

-- a message that Telegram does not take raises, and what was done before it stays done
unfoldable pub send : World → ℕ → Notice → Keyboard → Action Bot (Unit {0})
send w chat notice keyboard = do
  raise_if (not (w.delivers chat)) telegram_error
  modify (λ b. record b { sent = Sent.message chat notice keyboard ∷ b.sent })

unfoldable pub answer_callback : World → Notice → Action Bot (Unit {0})
answer_callback w notice =
    raise_if (not w.answers) telegram_error
    >> modify (λ b. record b { sent = Sent.toast notice ∷ b.sent })

unfoldable pub notify_chats : World → List ℕ → Notice → Keyboard → Action Bot (Unit {0})
unfolding send
notify_chats w [] notice keyboard = pure tt
notify_chats w (chat ∷ chats) notice keyboard =
    send w chat notice keyboard >> notify_chats w chats notice keyboard

-- all of them but one
unfoldable pub notify_others : World → ℕ → List ℕ → Notice → Keyboard → Action Bot (Unit {0})
unfolding notify_chats
notify_others w chat chats notice keyboard =
    notify_chats w (where_rows (λ c. not (c == chat)) chats) notice keyboard

abbrev pub caught :
    {A B : Type 0} → (A → Action Bot B) → Action Bot B → Result A × Bot → Result B × Bot
caught k handler (ok a, b) = k a b
caught k handler (err permission_error, b) = handler b
caught k handler (err e, b) = (err e, b)

-- `try` and `except PermissionError`: how the chain goes on, and what it does after a refusal
unfoldable pub or_refused :
    {A B : Type 0} → Action Bot A → (A → Action Bot B) → Action Bot B → Action Bot B
or_refused m k handler b = caught k handler (m b)
