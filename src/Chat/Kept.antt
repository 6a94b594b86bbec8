-- ===== src/Chat/Kept.antt =====
-- A press keeps the stored dialogues ready, and so does every update (telegram_consumer.py:
-- handle_callback, main).
use pasarguard_control_plane.Base.{
  ℕ, refl, String, Bool, true, false, Option, some, none, str_eq, pure, if◌then◌else◌, Result, ok,
  err, ◌>>=◌, ◌>>◌, Option-cases, Bool-cases, inl, inr, permission_error,
}
use pasarguard_control_plane.Store.Rows.{OrderStatus, PanelOrder}
use pasarguard_control_plane.Catalog.{Kind}
use pasarguard_control_plane.Chat.Callbacks.{Callback, read_callback}
use pasarguard_control_plane.Chat.Menus.{Section, section_named}
use pasarguard_control_plane.Chat.Deals.{
  pick_plan, order_needs_admin, customer_action, customer_order_action,
}
use pasarguard_control_plane.Chat.Desk.{NodeCall, node_call}
use pasarguard_control_plane.Chat.Money.{FundingReply}
use pasarguard_control_plane.Orders.Lists.{PlanRow}
use pasarguard_control_plane.Chat.State.{
  OrderStep, QuoteStep, PlanStep, Dialogue, answer_callback, set_state, on_db, Question, Notice,
  Keyboard, Bot, World, send,
}
use pasarguard_control_plane.Chat.Dialogues.{
  ask, begin_order, begin_chosen_plan, begin_plan_order, begin_quote, one_button, to_section,
}
use pasarguard_control_plane.Chat.Quotes.{apply_approval, account_form}
use pasarguard_control_plane.Chat.Shelves.{no_answers, catalog_shelves, begin_shelf, begin_plan}
use pasarguard_control_plane.Chat.Sections.{show_buttons, show_servers}
use pasarguard_control_plane.Chat.Dispatch.{
  tell_seller, after_step, view_order, accept_payment, order_callback, funding_news, node_reply,
  choose_server, choose_shelf, toggle, open_by_name, press, told_failure, handle_callback, Update,
  update,
}
use pasarguard_control_plane.Chat.Stored.{
  Safe, bind, safe_steps, send-Safe, current_role-Safe, answer_callback-Safe, returns-Safe,
  on_db-Safe, if_Safe,
}
use pasarguard_control_plane.Chat.Ends.{apply_approval-Safe}
use pasarguard_control_plane.Chat.Ready.{
  Ready, AllReady, clear_state-Ready, set_state-Ready, go_on-Ready,
}
use pasarguard_control_plane.Chat.Updates.{
  show_catalog-Ready, section_menu-Ready, open_section-Ready, with_state, handle_message-Ready,
}

module _ (w : World) (chat : ℕ) where
  begin_order-Ready : (panel : ℕ) → Safe AllReady (begin_order w chat panel)
  unfolding begin_order
  begin_order-Ready panel = bind AllReady (set_state-Ready chat _ (inl refl)) (λ _.
      send-Safe AllReady w chat (Notice.ask (Question.order OrderStep.business_name)) Keyboard.bare)

  begin_chosen_plan-Ready : (row : PlanRow) → Safe AllReady (begin_chosen_plan w chat row)
  unfolding begin_chosen_plan
  begin_chosen_plan-Ready row =
      bind AllReady (set_state-Ready chat _ (inr (tt, tt)))
        (λ _. send-Safe AllReady w chat (Notice.plan_chosen row) Keyboard.bare)

  begin_plan_order-Ready : (plan : ℕ) → Safe AllReady (begin_plan_order w chat plan)
  unfolding begin_plan_order
  begin_plan_order-Ready plan = record {
    run = λ s p. elim (Option-cases (pick_plan plan s.db)) [
      | inl e ↦
          rw (e, begin_plan_order)
            ((send-Safe AllReady w chat Notice.plan_gone
                (one_button (to_section Section.new_order))).run
              s p)
      | inr (row, e) ↦ rw (e, begin_plan_order) ((begin_chosen_plan-Ready row).run s p)
    ];
  }

  begin_quote-Ready : (order : ℕ) → Safe AllReady (begin_quote w chat order)
  unfolding begin_quote
  begin_quote-Ready order =
      bind AllReady (set_state-Ready chat _ tt) (λ _.
        send-Safe AllReady w chat (Notice.ask (Question.quote QuoteStep.amount)) Keyboard.bare)

  begin_shelf-Ready : Safe AllReady (begin_shelf w chat)
  unfolding begin_shelf
  begin_shelf-Ready = go_on-Ready w chat _ _ tt

  opens_plan : Safe AllReady (set_state chat (Dialogue.plan PlanStep.panel no_answers))
  opens_plan = set_state-Ready chat (Dialogue.plan PlanStep.panel no_answers) tt

  asks_account : (order_id : ℕ) → Safe AllReady (set_state chat (Dialogue.attach order_id))
  asks_account order_id = set_state-Ready chat (Dialogue.attach order_id) tt

  begin_plan-Ready : Safe AllReady (begin_plan w chat)
  unfolding begin_plan
  begin_plan-Ready = search (opens_plan, safe_steps) depth 8

  tell_seller-Ready :
      (order_id : ℕ) (to : OrderStatus) (done : PanelOrder × Option ℕ)
      → Safe AllReady (tell_seller w order_id to done)
  unfolding tell_seller
  tell_seller-Ready order_id OrderStatus.payment_declared done = search safe_steps
  tell_seller-Ready order_id _ done = returns-Safe AllReady tt

  after_step-Ready :
      (order_id : ℕ) (to : OrderStatus) (done : PanelOrder × Option ℕ)
      → Safe AllReady (after_step w chat order_id to done)
  unfolding after_step
  after_step-Ready order_id to done = search (tell_seller-Ready, safe_steps) depth 10

  view_order-Ready : (order_id : ℕ) → Safe AllReady (view_order w chat order_id)
  unfolding view_order
  view_order-Ready order_id = search safe_steps depth 8

  decision-Ready :
      (order_id : ℕ) (accepts : Bool)
      → Safe AllReady (apply_approval w chat order_id accepts true (account_form none))
  decision-Ready order_id accepts =
      apply_approval-Safe AllReady clear_state-Ready w chat order_id accepts true
        (account_form none)

  ask_account :
      (order_id : ℕ)
      → Safe AllReady (do
        answer_callback w Notice.admin_needed
        set_state chat (Dialogue.attach order_id)
        ask w chat Question.attach)
  ask_account order_id = search (asks_account, safe_steps) depth 8

  accept_payment-Ready : (order_id : ℕ) → Safe AllReady (accept_payment w chat order_id)
  unfolding accept_payment
  accept_payment-Ready order_id = record {
    run = λ s p. elim (Bool-cases (order_needs_admin order_id s.db)) [
      | inl e ↦ rw (e, accept_payment) ((ask_account order_id).run s p)
      | inr e ↦ rw (e, accept_payment) ((decision-Ready order_id true).run s p)
    ];
  }

  order_callback-Ready :
      (order_id : ℕ) (action : String) → Safe AllReady (order_callback w chat order_id action)
  unfolding order_callback
  order_callback-Ready order_id action =
      if_Safe AllReady (str_eq action "view") (view_order-Ready order_id) (
        if_Safe AllReady (str_eq action "quote")
          (bind AllReady (answer_callback-Safe AllReady w Notice.loading)
            (λ _. begin_quote-Ready order_id))
          (step (customer_action action)))
    where
      last : Safe AllReady (
          if str_eq action "ok"
          then accept_payment w chat order_id
          else if str_eq action "no"
          then apply_approval w chat order_id false true (account_form none)
          else pure tt)
      last = if_Safe AllReady (str_eq action "ok") (accept_payment-Ready order_id) (
          if_Safe AllReady (str_eq action "no") (decision-Ready order_id false)
            (returns-Safe AllReady tt))

      step :
          (to : Option OrderStatus)
          → Safe AllReady (elim to [
            | some to ↦
                on_db (customer_order_action chat order_id to) >>= after_step w chat order_id to
            | none ↦
                if str_eq action "ok"
                then accept_payment w chat order_id
                else if str_eq action "no"
                then apply_approval w chat order_id false true (account_form none)
                else pure tt
          ])
      step (some to) =
          bind AllReady (on_db-Safe AllReady (customer_order_action chat order_id to))
            (λ done. after_step-Ready order_id to done)
      step none = last

  funding_news-Ready : (reply : FundingReply) → Safe AllReady (funding_news w reply)
  unfolding funding_news
  funding_news-Ready (FundingReply.decided_now approves (some customer)) =
      send-Safe AllReady w customer _ _
  funding_news-Ready _ = returns-Safe AllReady tt

  node_reply-Ready : (action text : String) → Safe AllReady (node_reply w chat action text)
  unfolding node_reply
  node_reply-Ready action text = reply (node_call action)
    where
      reply :
          (c : Option NodeCall)
          → Safe AllReady (elim c [
            | none ↦ pure tt
            | some NodeCall.status ↦
                answer_callback w Notice.done >> send w chat (Notice.node_status text) Keyboard.bare
            | some call ↦ answer_callback w (Notice.node_done call)
          ])
      reply none = returns-Safe AllReady tt
      reply (some NodeCall.status) =
          bind AllReady (answer_callback-Safe AllReady w Notice.done)
            (λ _. send-Safe AllReady w chat (Notice.node_status text) Keyboard.bare)
      reply (some _) = answer_callback-Safe AllReady w _

  show_shelves : Safe AllReady (do
    answer_callback w Notice.done
    rows ← on_db (catalog_shelves w.env chat)
    send w chat Notice.plan_shelves (Keyboard.buttons rows))
  show_shelves = search safe_steps depth 8

  ask_plan_name :
      Safe AllReady (do answer_callback w Notice.done; ask w chat (Question.plan PlanStep.name))
  ask_plan_name = search safe_steps depth 8

  choose_server-Ready :
      (p : ℕ) (d : Dialogue) → Ready d → Safe AllReady (choose_server w chat p (some d))
  unfolding choose_server
  choose_server-Ready p (Dialogue.plan PlanStep.panel x) r =
      bind AllReady
        (set_state-Ready chat (Dialogue.plan PlanStep.shelf (record x { panel_id = some p })) tt)
        (λ _. show_shelves)
  choose_server-Ready p _ r = answer_callback-Safe AllReady w Notice.begin_plan_first

  choose_shelf-Ready :
      (c : Option ℕ) (d : Dialogue) → Ready d → Safe AllReady (choose_shelf w chat c (some d))
  unfolding choose_shelf
  choose_shelf-Ready c (Dialogue.plan PlanStep.shelf x) r =
      bind AllReady
        (set_state-Ready chat (Dialogue.plan PlanStep.name (record x { category_id = c })) r)
        (λ _. ask_plan_name)
  choose_shelf-Ready c _ r = answer_callback-Safe AllReady w Notice.begin_plan_first

  toggle-Ready : (kind : Kind) (target : ℕ) → Safe AllReady (toggle w chat kind target)
  unfolding toggle
  toggle-Ready kind target = search ((show_catalog-Ready w chat), safe_steps) depth 8

  open_by_name-Ready : (name : String) → Safe AllReady (open_by_name w chat name)
  unfolding open_by_name
  open_by_name-Ready name = bind AllReady (answer_callback-Safe AllReady w Notice.loading) (λ _.
      if_Safe AllReady (str_eq name "menu")
        (bind AllReady (current_role-Safe AllReady w chat) (λ role. section_menu-Ready w chat role))
        (open_section-Ready w chat (section_named name)))

  press-Ready : (c : Callback) → Safe AllReady (press w chat c)
  unfolding press show_servers show_buttons choose_server choose_shelf
  press-Ready (Callback.section name) = open_by_name-Ready name
  press-Ready (Callback.nodes p) = search safe_steps depth 8
  press-Ready (Callback.node p n a) = search (node_reply-Ready, safe_steps) depth 8
  press-Ready (Callback.funding approves r) = search (funding_news-Ready, safe_steps) depth 8
  press-Ready (Callback.approval r approves) = search safe_steps depth 8
  press-Ready (Callback.sale p saleable) = search safe_steps depth 10
  press-Ready (Callback.toggle_category c) = toggle-Ready Kind.category c
  press-Ready (Callback.toggle_plan p) = toggle-Ready Kind.plan p
  press-Ready Callback.new_category = search (begin_shelf-Ready, safe_steps)
  press-Ready Callback.new_plan = search (begin_plan-Ready, safe_steps)
  press-Ready (Callback.plan_server p) =
      with_state w chat (choose_server w chat p)
        (answer_callback-Safe AllReady w Notice.begin_plan_first) (choose_server-Ready p)
  press-Ready (Callback.plan_shelf c) =
      with_state w chat (choose_shelf w chat c)
        (answer_callback-Safe AllReady w Notice.begin_plan_first) (choose_shelf-Ready c)
  press-Ready (Callback.order_plan p) = search (begin_plan_order-Ready, safe_steps)
  press-Ready (Callback.order_server p) = search (begin_order-Ready, safe_steps)
  press-Ready (Callback.queue status) = search safe_steps depth 8
  press-Ready (Callback.order o action) = order_callback-Ready o action

  told_failure-Ready :
      (r : Result (Unit {0}) × Bot) → AllReady r.1.states → AllReady (told_failure w r).1.states
  told_failure-Ready (ok a, b) h = h
  told_failure-Ready (err permission_error, b) h =
      (answer_callback-Safe AllReady w Notice.refused).run b h
  told_failure-Ready (err _, b) h = (answer_callback-Safe AllReady w Notice.failed).run b h

  handle_callback-Ready : (text : String) → Safe AllReady (handle_callback w chat text)
  unfolding handle_callback
  handle_callback-Ready text = record { run = λ s p. pressed s p (read_callback w.ids text) }
    where
      pressed :
          (s : Bot)
          → AllReady s.states
          → (c : Option Callback)
          → AllReady
              (told_failure w (elim c [
                | none ↦ answer_callback w Notice.invalid_command s
                | some c ↦ press w chat c s
              ])).1.states
      pressed s p none =
          told_failure-Ready (answer_callback w Notice.invalid_command s)
            ((answer_callback-Safe AllReady w Notice.invalid_command).run s p)
      pressed s p (some c) = told_failure-Ready (press w chat c s) ((press-Ready c).run s p)

-- The dialogues in the store are ready, and every update keeps them so: a message, a press, a text
-- that is no button's, an exception on the way, or the end of a dialogue's time. A ready dialogue
-- holds an answer for each question that it has passed, and these answers pass the tests that the
-- dialogue itself makes: an order's name has 2 to 160 characters, and its size, where no plan sets
-- it, is from 1 to 100000; a quote's amount and price are positive and its instructions have 3 to
-- 2000 characters; a shelf's name has 2 to 80 and a plan's 2 to 120; a plan's price is from 1 to
-- 10^13, its size and its users from 1 to 100000, its days from 1 to 3650; a reseller's name has
-- at least 2 characters and its slug the form of one. Every other answer has only been given.
pub update-AllReady :
    (w : World) (u : Update) (b : Bot) → AllReady b.states → AllReady (update w u b).states
unfolding update
update-AllReady w (Update.message chat text) b h = (handle_message-Ready w chat text).run b h
update-AllReady w (Update.callback chat text) b h = (handle_callback-Ready w chat text).run b h
update-AllReady w (Update.expire chat) b h = (clear_state-Ready chat).run b h
