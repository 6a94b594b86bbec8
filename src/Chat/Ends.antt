-- ===== src/Chat/Ends.antt =====
-- The ends of the dialogues store nothing: where a call that takes a dialogue away keeps a property
-- of the stored ones, they keep it too (telegram_consumer.py).
use pasarguard_control_plane.Base.{
  ℕ, String, Bool, true, false, Option, some, none, [], ◌∷◌, Result, ok, err, Action, ◌>>◌,
  Option-cases, inl, inr, pure,
}
use pasarguard_control_plane.Store.{Db}
use pasarguard_control_plane.Store.Rows.{PanelOrder}
use pasarguard_control_plane.Chat.Deals.{order_owner_telegram_id}
use pasarguard_control_plane.Orders.Lists.{order_row}
use pasarguard_control_plane.Chat.Callbacks.{Callback}
use pasarguard_control_plane.Orders.Seller.{OrderApproveIn}
use pasarguard_control_plane.Chat.State.{
  OrderData, QuoteData, PlanData, ResellerData, Notice, Keyboard, Bot, World, on_db, clear_state,
  send,
}
use pasarguard_control_plane.Chat.Dialogues.{
  abort_flow, tell_price, announce_order, finish_order, send_menu,
}
use pasarguard_control_plane.Chat.Quotes.{
  announce_quote, finish_quote, answer_if, outcome, announce_approval, refuse_approval,
  apply_approval,
}
use pasarguard_control_plane.Chat.Shelves.{
  show_catalog, finish_category, collected_plan, finish_plan,
}
use pasarguard_control_plane.Chat.Forms.{finish_credit, after_reseller, or_failed, finish_reseller}
use pasarguard_control_plane.Chat.Stored.{
  States, Safe, safe_steps, send_menu-Safe, send-Safe, returns-Safe, answer_callback-Safe, bind,
  lift-Safe,
}

module _ (P : States → Type 0) (clears : (chat : ℕ) → Safe P (clear_state chat)) (w : World)
    (chat : ℕ) where
  pub abort_flow-Safe : Safe P (abort_flow w chat)
  unfolding abort_flow
  abort_flow-Safe = search (clears, safe_steps)

  tell_price-Safe : (quoted : Bool) (id : ℕ) → Safe P (tell_price w chat quoted id)
  unfolding tell_price
  tell_price-Safe true id = search safe_steps
  tell_price-Safe false id = search safe_steps

  announce_order-Safe : (order : PanelOrder) → Safe P (announce_order w chat order)
  unfolding announce_order
  announce_order-Safe order = search (clears, tell_price-Safe, safe_steps) depth 16

  pub finish_order-Safe : (x : OrderData) (note : String) → Safe P (finish_order w chat x note)
  unfolding finish_order
  finish_order-Safe x note = search (announce_order-Safe, abort_flow-Safe, safe_steps)

  -- a message to the requester, if there is one
  tell_requester :
      (id : ℕ) (k : Bot → ℕ → Action Bot (Unit {0}))
      → ((b : Bot) (c : ℕ) → Safe P (k b c))
      → Safe P {A = Unit {0}}
          (λ b. elim (order_owner_telegram_id id b.db) [ none ↦ pure tt b | some c ↦ k b c b ])
  tell_requester id k h = record {
    run = λ s p. elim (Option-cases (order_owner_telegram_id id s.db)) [
      | inl e ↦ rw e p
      | inr (c, e) ↦ rw e ((h s c).run s p)
    ];
  }

  announce_quote-Safe : (order : PanelOrder) → Safe P (announce_quote w chat order)
  unfolding announce_quote
  announce_quote-Safe order =
      let told : Bot → ℕ → Action Bot (Unit {0}) = λ b c.
        send w c (Notice.order_priced (order_row b.db order)) (
          Keyboard.buttons
            ((Callback.order order.id "confirm" ∷ Callback.order order.id "view" ∷ []) ∷ [])) in
      bind P (clears chat) (λ _.
        bind P (send_menu-Safe P w chat Notice.price_recorded)
          (λ _. tell_requester order.id told (λ b c. search safe_steps)))

  pub finish_quote-Safe : (x : QuoteData) (id : Option ℕ) → Safe P (finish_quote w chat x id)
  unfolding finish_quote
  finish_quote-Safe x id = search (announce_quote-Safe, abort_flow-Safe, safe_steps) depth 8

  answer_if-Safe : (pressed : Bool) (n : Notice) → Safe P (answer_if w pressed n)
  answer_if-Safe true n = answer_callback-Safe P w n
  answer_if-Safe false n = returns-Safe P tt

  announce_approval-Safe :
      (order_id : ℕ) (accepts pressed : Bool) (order : PanelOrder)
      → Safe P (announce_approval w chat order_id accepts pressed order)
  unfolding announce_approval
  announce_approval-Safe order_id accepts pressed order =
      let told : Bot → ℕ → Action Bot (Unit {0}) =
        λ b c. send w c (outcome accepts order).0 (outcome accepts order).1 in
      bind P (clears chat) (λ _. bind P (answer_if-Safe pressed Notice.decision_recorded) (λ _.
        bind P (send_menu-Safe P w chat (Notice.order_decided accepts)) (λ _.
          tell_requester order_id told
            (λ b c. send-Safe P w c (outcome accepts order).0 (outcome accepts order).1))))

  refuse_approval-Safe : (pressed : Bool) → Safe P (refuse_approval w chat pressed)
  unfolding refuse_approval
  refuse_approval-Safe pressed = search (clears, answer_if-Safe, safe_steps) depth 8

  pub apply_approval-Safe :
      (order_id : ℕ) (accepts pressed : Bool) (attach : OrderApproveIn)
      → Safe P (apply_approval w chat order_id accepts pressed attach)
  unfolding apply_approval
  apply_approval-Safe order_id accepts pressed attach =
      search (announce_approval-Safe, refuse_approval-Safe, safe_steps) depth 8

  pub show_catalog-Safe : (n : Notice) → Safe P (show_catalog w chat n)
  unfolding show_catalog
  show_catalog-Safe n = search safe_steps depth 8

  pub finish_category-Safe :
      (name : Option String) (description : String)
      → Safe P (finish_category w chat name description)
  unfolding finish_category
  finish_category-Safe none description = lift-Safe P _
  finish_category-Safe (some name) description =
      search (clears, show_catalog-Safe, abort_flow-Safe, safe_steps) depth 8

  collected_plan-Safe : (x : PlanData) → Safe P (collected_plan x)
  unfolding collected_plan
  collected_plan-Safe x = search safe_steps depth 20

  pub finish_plan-Safe : (x : PlanData) → Safe P (finish_plan w chat x)
  unfolding finish_plan
  finish_plan-Safe x =
      search (clears, collected_plan-Safe, show_catalog-Safe, abort_flow-Safe, safe_steps) depth 10

  pub finish_credit-Safe : (amount : ℕ) → Safe P (finish_credit w chat amount)
  unfolding finish_credit
  finish_credit-Safe amount = search (clears, safe_steps) depth 12

  or_failed-Safe : (m : Action Db String) → Safe P (or_failed w chat m)
  unfolding or_failed on_db
  or_failed-Safe m = record { run = λ s p. split (m s.db).0 (record s { db = (m s.db).1 }) p }
    where
      leave : (n : Notice) → Safe P (clear_state chat >> send_menu w chat n)
      leave n = bind P (clears chat) (λ _. send_menu-Safe P w chat n)

      split : (r : Result String) (b : Bot) → P b.states → P (after_reseller w chat (r, b)).1.states
      split (ok name) b p = (leave (Notice.reseller_made name)).run b p
      split (err e) b p = (leave Notice.reseller_failed).run b p

  pub finish_reseller-Safe :
      (x : ResellerData) (credit : String) → Safe P (finish_reseller w chat x credit)
  unfolding finish_reseller
  finish_reseller-Safe x credit = or_failed-Safe _
