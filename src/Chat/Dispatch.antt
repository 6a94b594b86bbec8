-- ===== src/Chat/Dispatch.antt =====
-- Presses on buttons, and the loop over updates (src/control_plane/telegram_consumer.py:
-- handle_callback, order_callback, main).
use pasarguard_control_plane.Base.{
  ℕ, String, str_eq, true, false, Option, some, none, [], ◌∷◌, if◌then◌else◌, Result, ok, err,
  permission_error, Action, pure, gets, ◌>>=◌, ◌>>◌,
}
use pasarguard_control_plane.Store.Rows.{OrderStatus, PanelOrder}
use pasarguard_control_plane.Catalog.{Kind}
use pasarguard_control_plane.Chat.Menus.{Section, section_named}
use pasarguard_control_plane.Chat.Callbacks.{Callback, read_callback}
use pasarguard_control_plane.Chat.Deals.{
  order_detail, order_queue, customer_action, customer_order_action, order_needs_admin, staff_chats,
  order_staff,
}
use pasarguard_control_plane.Chat.Desk.{
  NodeCall, node_call, node_action, set_saleable, toggle_catalog,
}
use pasarguard_control_plane.Chat.Money.{FundingReply, decide_funding, decide_approval}
use pasarguard_control_plane.Chat.Pages.{node_list, queue_buttons, page_buttons}
use pasarguard_control_plane.Chat.State.{
  PlanStep, Dialogue, Question, Notice, Keyboard, Bot, World, on_db, set_state, get_state,
  clear_state, send, answer_callback, notify_chats,
}
use pasarguard_control_plane.Chat.Dialogues.{
  current_role, send_menu, ask, begin_order, begin_plan_order, begin_quote,
}
use pasarguard_control_plane.Chat.Quotes.{account_form, apply_approval}
use pasarguard_control_plane.Chat.Shelves.{begin_shelf, begin_plan, show_catalog, catalog_shelves}
use pasarguard_control_plane.Chat.Sections.{
  show_servers, show_queue, open_section, section_menu, handle_message,
}

-- a declared payment is told to the staff of the seller
unfoldable pub tell_seller : World → ℕ → OrderStatus → PanelOrder × Option ℕ → Action Bot (Unit {0})
unfolding notify_chats staff_chats
tell_seller w order_id OrderStatus.payment_declared done = do
  chats ← gets (λ b. staff_chats done.1 order_staff b.db)
  notify_chats w chats (Notice.payment_declared done.0)
      (Keyboard.buttons ((Callback.order order_id "ok" ∷ Callback.order order_id "view" ∷ []) ∷ []))
tell_seller w order_id _ done = pure tt

-- what the customer's step leads to: the new page, and the seller told of a payment
unfoldable pub after_step :
    World → ℕ → ℕ → OrderStatus → PanelOrder × Option ℕ → Action Bot (Unit {0})
unfolding answer_callback send order_detail tell_seller
after_step w chat order_id to done = do
  answer_callback w (Notice.order_moved to)
  send w chat (Notice.order_moved to) Keyboard.bare
  page ← on_db (order_detail w.env chat order_id)
  send w chat (Notice.order_page page) (Keyboard.buttons (page_buttons page))
  tell_seller w order_id to done

unfoldable pub view_order : World → ℕ → ℕ → Action Bot (Unit {0})
unfolding order_detail answer_callback send
view_order w chat order_id = do
  page ← on_db (order_detail w.env chat order_id)
  answer_callback w Notice.done
  send w chat (Notice.order_page page) (Keyboard.buttons (page_buttons page))

-- a payment is confirmed at once, or after the question for the panel account
unfoldable pub accept_payment : World → ℕ → ℕ → Action Bot (Unit {0})
unfolding order_needs_admin answer_callback set_state send apply_approval
accept_payment w chat order_id b =
    if order_needs_admin order_id b.db
    then (do
      answer_callback w Notice.admin_needed
      set_state chat (Dialogue.attach order_id)
      ask w chat Question.attach)
        b
    else apply_approval w chat order_id true true (account_form none) b

unfoldable pub order_callback : World → ℕ → ℕ → String → Action Bot (Unit {0})
unfolding view_order begin_quote customer_action after_step accept_payment apply_approval
order_callback w chat order_id action =
    if str_eq action "view"
    then view_order w chat order_id
    else if str_eq action "quote"
    then (answer_callback w Notice.loading >> begin_quote w chat order_id)
    else elim (customer_action action) [
      | some to ↦ on_db (customer_order_action chat order_id to) >>= after_step w chat order_id to
      | none ↦
          if str_eq action "ok"
          then accept_payment w chat order_id
          else if str_eq action "no"
          then apply_approval w chat order_id false true (account_form none)
          else pure tt
    ]

unfoldable pub funding_news : World → FundingReply → Action Bot (Unit {0})
unfolding send
funding_news w (FundingReply.decided_now approves (some customer)) =
    send w customer (Notice.funding_answer approves) Keyboard.bare
funding_news w _ = pure tt

-- the answer of a node call, whose status is shown besides
unfoldable pub node_reply : World → ℕ → String → String → Action Bot (Unit {0})
unfolding node_call answer_callback send
node_reply w chat action text = elim (node_call action) [
  | none ↦ pure tt
  | some NodeCall.status ↦
      answer_callback w Notice.done >> send w chat (Notice.node_status text) Keyboard.bare
  | some call ↦ answer_callback w (Notice.node_done call)
]

-- a press on a server or a shelf belongs to the step of the plan's dialogue that shows it
unfoldable pub choose_server : World → ℕ → ℕ → Option Dialogue → Action Bot (Unit {0})
unfolding set_state answer_callback send catalog_shelves
choose_server w chat panel_id (some (Dialogue.plan PlanStep.panel x)) = do
  set_state chat (Dialogue.plan PlanStep.shelf (record x { panel_id = some panel_id }))
  answer_callback w Notice.done
  rows ← on_db (catalog_shelves w.env chat)
  send w chat Notice.plan_shelves (Keyboard.buttons rows)
choose_server w chat panel_id _ = answer_callback w Notice.begin_plan_first

unfoldable pub choose_shelf : World → ℕ → Option ℕ → Option Dialogue → Action Bot (Unit {0})
unfolding set_state answer_callback send
choose_shelf w chat category_id (some (Dialogue.plan PlanStep.shelf x)) = do
  set_state chat (Dialogue.plan PlanStep.name (record x { category_id = category_id }))
  answer_callback w Notice.done
  ask w chat (Question.plan PlanStep.name)
choose_shelf w chat category_id _ = answer_callback w Notice.begin_plan_first

abbrev pub kind_of : Callback → Kind
kind_of (Callback.toggle_category _) = Kind.category
kind_of _ = Kind.plan

unfoldable pub toggle : World → ℕ → Kind → ℕ → Action Bot (Unit {0})
unfolding toggle_catalog answer_callback show_catalog
toggle w chat kind target = do
  opened ← on_db (toggle_catalog w.env chat kind target)
  answer_callback w (Notice.catalog_toggled opened)
  show_catalog w chat (Notice.page Section.catalog)

unfoldable pub open_by_name : World → ℕ → String → Action Bot (Unit {0})
unfolding answer_callback current_role section_menu open_section section_named
open_by_name w chat name = do
  answer_callback w Notice.loading
  (if str_eq name "menu"
      then current_role w chat >>= section_menu w chat
      else open_section w chat (section_named name))

-- the branches of handle_callback
unfoldable pub press : World → ℕ → Callback → Action Bot (Unit {0})
unfolding open_by_name node_list show_servers node_action node_reply decide_funding funding_news
    decide_approval set_saleable toggle choose_server choose_shelf order_callback show_queue
    begin_shelf begin_plan begin_plan_order begin_order
press w chat (Callback.section name) = open_by_name w chat name
press w chat (Callback.nodes panel) = do
  rows ← on_db (node_list w.env w.nodes chat panel)
  answer_callback w Notice.done
  send w chat Notice.nodes_page (Keyboard.buttons rows)
press w chat (Callback.node panel node action) = do
  text ← on_db (node_action w.env w.script w.run chat panel node action)
  node_reply w chat action text
press w chat (Callback.funding approves r) = do
  reply ← on_db (decide_funding w.env w.now chat r approves)
  answer_callback w (Notice.funding_decided reply)
  send_menu w chat (Notice.funding_decided reply)
  funding_news w reply
press w chat (Callback.approval r approves) = do
  on_db (decide_approval w.env w.now chat r approves)
  answer_callback w (Notice.approval_decided approves)
  send_menu w chat (Notice.approval_decided approves)
press w chat (Callback.sale panel saleable) = do
  on_db (set_saleable w.env chat panel saleable)
  answer_callback w (Notice.saleable_set saleable)
  show_servers w chat
press w chat (Callback.toggle_category c) = toggle w chat Kind.category c
press w chat (Callback.toggle_plan p) = toggle w chat Kind.plan p
press w chat Callback.new_category = answer_callback w Notice.loading >> begin_shelf w chat
press w chat Callback.new_plan = answer_callback w Notice.loading >> begin_plan w chat
press w chat (Callback.plan_server p) = get_state chat >>= choose_server w chat p
press w chat (Callback.plan_shelf c) = get_state chat >>= choose_shelf w chat c
press w chat (Callback.order_plan p) = answer_callback w Notice.loading >> begin_plan_order w chat p
press w chat (Callback.order_server p) = answer_callback w Notice.loading >> begin_order w chat p
press w chat (Callback.queue status) = do
  rows ← on_db (order_queue w.env chat status)
  answer_callback w Notice.done
  send w chat (Notice.orders_page rows) (Keyboard.buttons (queue_buttons status rows))
press w chat (Callback.order o action) = order_callback w chat o action

-- the two `except` clauses: a refusal is told, any other exception is only called a failure
abbrev pub told_failure : World → Result (Unit {0}) × Bot → Result (Unit {0}) × Bot
told_failure w (ok _, b) = (ok tt, b)
told_failure w (err permission_error, b) = answer_callback w Notice.refused b
told_failure w (err _, b) = answer_callback w Notice.failed b

unfoldable pub handle_callback : World → ℕ → String → Action Bot (Unit {0})
unfolding read_callback press answer_callback
handle_callback w chat text b = told_failure w (elim (read_callback w.ids text) [
  | none ↦ answer_callback w Notice.invalid_command b
  | some c ↦ press w chat c b
])

-- what reaches a chat: a text, a press, or the end of the time that Redis keeps its dialogue
pub data Update : Type 0 where
  message : ℕ → String → Update
  callback : ℕ → String → Update
  expire : ℕ → Update

-- One update of `main`: an exception is printed, and the worker goes on with what was written.
unfoldable pub update : World → Update → Bot → Bot
unfolding handle_message handle_callback clear_state
update w (Update.message chat text) b = (handle_message w chat text b).1
update w (Update.callback chat text) b = (handle_callback w chat text b).1
update w (Update.expire chat) b = (clear_state chat b).1
