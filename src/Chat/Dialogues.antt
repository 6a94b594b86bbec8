-- ===== src/Chat/Dialogues.antt =====
-- The dialogue of an order, and the steps that all dialogues share
-- (src/control_plane/telegram_consumer.py: begin_order, begin_plan_order, begin_quote, abort_flow,
-- continue_order, current_role).
use pasarguard_control_plane.Base.{
  ℕ, String, str_eq, Bool, true, false, ◌&&◌, ◌||◌, Option, some, none, List, [], ◌∷◌, ltb, leb,
  if◌then◌else◌, Result, ok, err, key_error, Action, pure, gets, lift, ◌>>=◌, ◌>>◌,
}
use Prim.Native.String.{count}
use pasarguard_control_plane.Rbac.{Role}
use pasarguard_control_plane.Store.Rows.{OrderStatus, PanelOrder}
use pasarguard_control_plane.Orders.{OrderIn}
use pasarguard_control_plane.Orders.Names.{cut}
use pasarguard_control_plane.Orders.Lists.{PlanRow, order_row}
use pasarguard_control_plane.Chat.Menus.{Section, section_name}
use pasarguard_control_plane.Chat.Callbacks.{Callback}
use pasarguard_control_plane.Chat.Context.{context}
use pasarguard_control_plane.Chat.Digits.{number, whole}
use pasarguard_control_plane.Chat.Deals.{is_status, pick_plan, place_order, order_reviewer_chats}
use pasarguard_control_plane.Chat.State.{
  OrderStep, OrderData, QuoteStep, Dialogue, Question, Notice, Keyboard, Bot, World, on_db,
  set_state, clear_state, send, notify_others, or_refused,
}

-- staff roles come from the membership; everyone else is a prospective customer
unfoldable pub current_role : World → ℕ → Action Bot Role
unfolding context
current_role w chat b = elim (context w.env chat b.db) [
  | none ↦ pure Role.customer b
  | some c ↦ pure c.role b
]

-- a message with the menu of the chat's role under it
unfoldable pub send_menu : World → ℕ → Notice → Action Bot (Unit {0})
unfolding current_role send
send_menu w chat notice = do role ← current_role w chat; send w chat notice (Keyboard.menu role)

unfoldable pub abort_flow : World → ℕ → Action Bot (Unit {0})
unfolding clear_state send_menu
abort_flow w chat = clear_state chat >> send_menu w chat Notice.refused

abbrev pub ask : World → ℕ → Question → Action Bot (Unit {0})
ask w chat question = send w chat (Notice.ask question) Keyboard.bare

abbrev pub ask_again : World → ℕ → Question → Action Bot (Unit {0})
ask_again w chat question = send w chat (Notice.ask_again question) Keyboard.bare

-- an answer that has to be a number with a property; `int` may refuse what `isdigit` lets through
unfoldable pub with_number :
    World
    → String
    → (ℕ → Bool)
    → Action Bot (Unit {0})
    → (ℕ → Action Bot (Unit {0}))
    → Action Bot (Unit {0})
with_number w value good again use_it = elim (whole w.script (number value)) [
  | none ↦ again
  | some r ↦ lift r >>= λ n. if good n then use_it n else again
]

-- the answers that leave a question open: the word for "later", by its characters' numbers, "-", "0"
unfoldable pub is_skip : String → Bool
is_skip value = str_eq value "\u{628}\u{639}\u{62f}" || str_eq value "-" || str_eq value "0"

abbrev pub one_button : Callback → Keyboard
one_button c = Keyboard.buttons ((c ∷ []) ∷ [])

abbrev pub to_section : Section → Callback
to_section s = Callback.section (section_name s)

unfoldable pub begin_order : World → ℕ → ℕ → Action Bot (Unit {0})
unfolding set_state send
begin_order w chat panel_id =
    set_state chat (
      Dialogue.order OrderStep.business_name (record {
        panel_id = panel_id;
        plan_id = none;
        business_name = none;
        user_count = none;
        daily_gib = none;
      }))
    >> ask w chat (Question.order OrderStep.business_name)

-- the size of the order comes from the plan
unfoldable pub begin_chosen_plan : World → ℕ → PlanRow → Action Bot (Unit {0})
unfolding set_state send
begin_chosen_plan w chat row =
    set_state chat (
      Dialogue.order OrderStep.business_name (record {
        panel_id = row.plan.panel_id;
        plan_id = some row.plan.id;
        business_name = none;
        user_count = some row.plan.user_count;
        daily_gib = some row.plan.daily_gib;
      }))
    >> send w chat (Notice.plan_chosen row) Keyboard.bare

unfoldable pub begin_plan_order : World → ℕ → ℕ → Action Bot (Unit {0})
unfolding begin_chosen_plan pick_plan
begin_plan_order w chat plan_id b = elim (pick_plan plan_id b.db) [
  | none ↦ send w chat Notice.plan_gone (one_button (to_section Section.new_order)) b
  | some row ↦ begin_chosen_plan w chat row b
]

unfoldable pub begin_quote : World → ℕ → ℕ → Action Bot (Unit {0})
unfolding set_state send
begin_quote w chat order_id =
    set_state chat (
      Dialogue.quote QuoteStep.amount (record {
        order_id = order_id;
        amount_irr = none;
        credit_limit_irr = none;
        price_per_gib_irr = none;
        instructions = none;
      }))
    >> ask w chat (Question.quote QuoteStep.amount)

-- the dialogue at its next step, and the question of that step
unfoldable pub go_on : World → ℕ → Dialogue → Question → Action Bot (Unit {0})
unfolding set_state send
go_on w chat dialogue question = set_state chat dialogue >> ask w chat question

-- the order that the answers make; a key that is missing raises
unfoldable pub collected_order : OrderData → String → Result OrderIn
collected_order answers note = elim answers.business_name [
  | none ↦ err key_error
  | some business_name ↦ elim answers.user_count [
    | none ↦ err key_error
    | some user_count ↦ elim answers.daily_gib [
      | none ↦ err key_error
      | some daily_gib ↦ ok (record {
        panel_id = answers.panel_id;
        plan_id = answers.plan_id;
        business_name = business_name;
        user_count = user_count;
        daily_gib = daily_gib;
        note = note;
      })
    ]
  ]
]

-- a plan order has its price, a request waits for the reviewer
unfoldable pub order_buttons_for : Bool → ℕ → List (List Callback)
order_buttons_for true id = (Callback.order id "view" ∷ []) ∷ (Callback.order id "view" ∷ []) ∷ []
order_buttons_for false id = (Callback.order id "quote" ∷ []) ∷ (Callback.order id "view" ∷ []) ∷ []

unfoldable pub tell_price : World → ℕ → Bool → ℕ → Action Bot (Unit {0})
tell_price w chat true id =
    send w chat Notice.price_is_known
      (Keyboard.buttons ((Callback.order id "confirm" ∷ to_section Section.my_orders ∷ []) ∷ []))
tell_price w chat false id = pure tt

-- what follows a placed order
unfoldable pub announce_order : World → ℕ → PanelOrder → Action Bot (Unit {0})
unfolding clear_state send notify_others order_buttons_for tell_price order_row
announce_order w chat order = do
  clear_state chat
  row ← gets (λ b. order_row b.db order)
  send w chat (Notice.order_placed row) Keyboard.bare
  let quoted = is_status order.status OrderStatus.quoted
  chats ← gets (λ b. order_reviewer_chats order.panel_id b.db)
  notify_others w chat chats (Notice.new_order row)
      (Keyboard.buttons (order_buttons_for quoted order.id))
  tell_price w chat quoted order.id
  send w chat Notice.follow_your_orders (Keyboard.menu Role.customer)

unfoldable pub finish_order : World → ℕ → OrderData → String → Action Bot (Unit {0})
unfolding collected_order announce_order abort_flow
finish_order w chat answers note = do
  x ← lift (collected_order answers note)
  or_refused (on_db (place_order chat w.draws x)) (announce_order w chat) (abort_flow w chat)

abbrev pub upto_100000 : ℕ → Bool
upto_100000 n = ltb 0 n && leb n 100_000

-- a plan fixes the size already
abbrev pub after_name : Option ℕ → OrderStep
after_name none = OrderStep.user_count
after_name (some _) = OrderStep.note

unfoldable pub continue_order : World → ℕ → String → OrderStep → OrderData → Action Bot (Unit {0})
unfolding with_number go_on finish_order
continue_order w chat value OrderStep.business_name answers =
    if ltb (count value) 2
    then ask_again w chat (Question.order OrderStep.business_name)
    else go_on w chat
        (Dialogue.order (after_name answers.plan_id)
          (record answers { business_name = some (cut 160 value) }))
        (Question.order (after_name answers.plan_id))
continue_order w chat value OrderStep.user_count answers =
    with_number w value upto_100000 (ask_again w chat (Question.order OrderStep.user_count)) (λ n.
      go_on w chat (Dialogue.order OrderStep.daily_gib (record answers { user_count = some n }))
        (Question.order OrderStep.daily_gib))
continue_order w chat value OrderStep.daily_gib answers =
    with_number w value upto_100000 (ask_again w chat (Question.order OrderStep.daily_gib)) (λ n.
      go_on w chat (Dialogue.order OrderStep.note (record answers { daily_gib = some n }))
        (Question.order OrderStep.note))
continue_order w chat value OrderStep.note answers =
    finish_order w chat answers (if is_skip value then "" else cut 500 value)
