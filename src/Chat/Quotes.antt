-- ===== src/Chat/Quotes.antt =====
-- The dialogues of a reviewer: the price of an order and the account behind it
-- (src/control_plane/telegram_consumer.py: continue_quote, continue_attach, apply_approval).
use pasarguard_control_plane.Base.{
  ℕ, String, Bool, true, false, not, Option, some, none, [], ◌∷◌, ltb, if◌then◌else◌, Result, ok,
  err, key_error, validation_error, Action, pure, lift, raise_if, ◌>>=◌, ◌>>◌,
}
use Prim.Native.String.{count}
use pasarguard_control_plane.Rbac.{Role}
use pasarguard_control_plane.Store.Rows.{PanelOrder}
use pasarguard_control_plane.Orders.Names.{cut}
use pasarguard_control_plane.Orders.Lists.{order_row}
use pasarguard_control_plane.Orders.Seller.{OrderQuoteIn, OrderApproveIn}
use pasarguard_control_plane.Chat.Callbacks.{Callback}
use pasarguard_control_plane.Chat.Digits.{strip}
use pasarguard_control_plane.Chat.Deals.{
  reviewer_order_action, apply_quote, order_owner_telegram_id, is_account_id,
}
use pasarguard_control_plane.Chat.State.{
  QuoteStep, QuoteData, Dialogue, Question, Notice, Keyboard, Bot, World, on_db, clear_state, send,
  answer_callback, or_refused,
}
use pasarguard_control_plane.Chat.Dialogues.{
  send_menu, abort_flow, ask_again, with_number, is_skip, go_on,
}

unfoldable pub collected_quote : QuoteData → Option ℕ → Result OrderQuoteIn
collected_quote answers pg_admin_id = elim answers.amount_irr [
  | none ↦ err key_error
  | some amount ↦ elim answers.credit_limit_irr [
    | none ↦ err key_error
    | some credit ↦ elim answers.price_per_gib_irr [
      | none ↦ err key_error
      | some price ↦ elim answers.instructions [
        | none ↦ err key_error
        | some instructions ↦ ok (record {
          amount_irr = amount;
          credit_limit_irr = credit;
          price_per_gib_irr = price;
          payment_instructions = instructions;
          pg_admin_id = pg_admin_id;
        })
      ]
    ]
  ]
]

-- the customer is told the price
unfoldable pub announce_quote : World → ℕ → PanelOrder → Action Bot (Unit {0})
unfolding clear_state send_menu order_row order_owner_telegram_id
announce_quote w chat order = do
  clear_state chat
  send_menu w chat Notice.price_recorded
  (λ b. elim (order_owner_telegram_id order.id b.db) [
    | none ↦ pure tt b
    | some customer ↦
        send w customer (Notice.order_priced (order_row b.db order))
          (Keyboard.buttons
            ((Callback.order order.id "confirm" ∷ Callback.order order.id "view" ∷ []) ∷ []))
          b
  ])

unfoldable pub finish_quote : World → ℕ → QuoteData → Option ℕ → Action Bot (Unit {0})
unfolding collected_quote announce_quote abort_flow
finish_quote w chat answers pg_admin_id = do
  x ← lift (collected_quote answers pg_admin_id)
  or_refused (on_db (apply_quote w.env chat answers.order_id x)) (announce_quote w chat)
      (abort_flow w chat)

abbrev pub is_positive : ℕ → Bool
is_positive n = ltb 0 n

abbrev pub any_number : ℕ → Bool
any_number n = true

-- the steps in the order of `QUOTE_STEPS`
unfoldable pub continue_quote : World → ℕ → String → QuoteStep → QuoteData → Action Bot (Unit {0})
unfolding with_number go_on finish_quote is_skip
continue_quote w chat value QuoteStep.amount answers =
    with_number w value is_positive (ask_again w chat (Question.quote QuoteStep.amount)) (λ n.
      go_on w chat (Dialogue.quote QuoteStep.credit (record answers { amount_irr = some n }))
        (Question.quote QuoteStep.credit))
continue_quote w chat value QuoteStep.credit answers =
    with_number w value any_number (ask_again w chat (Question.quote QuoteStep.credit)) (λ n.
      go_on w chat (Dialogue.quote QuoteStep.price (record answers { credit_limit_irr = some n }))
        (Question.quote QuoteStep.price))
continue_quote w chat value QuoteStep.price answers =
    with_number w value is_positive (ask_again w chat (Question.quote QuoteStep.price)) (λ n.
      go_on w chat
        (Dialogue.quote QuoteStep.instructions (record answers { price_per_gib_irr = some n }))
        (Question.quote QuoteStep.instructions))
continue_quote w chat value QuoteStep.instructions answers =
    if ltb (count value) 3
    then ask_again w chat (Question.quote QuoteStep.instructions)
    else go_on w chat
        (Dialogue.quote QuoteStep.pg_admin_id
          (record answers { instructions = some (cut 2000 value) }))
        (Question.quote QuoteStep.pg_admin_id)
continue_quote w chat value QuoteStep.pg_admin_id answers =
    if is_skip value
    then finish_quote w chat answers none
    else with_number w value any_number (ask_again w chat (Question.quote QuoteStep.pg_admin_id))
        (λ n. finish_quote w chat answers (some n))

abbrev pub answer_if : World → Bool → Notice → Action Bot (Unit {0})
answer_if w true notice = answer_callback w notice
answer_if w false notice = pure tt

abbrev pub outcome : Bool → PanelOrder → Notice × Keyboard
outcome true order = (Notice.customer_approved order, Keyboard.webapp)
outcome false order = (Notice.customer_rejected, Keyboard.menu Role.customer)

-- both sides are told; the question for the account has no press to answer
unfoldable pub announce_approval : World → ℕ → ℕ → Bool → Bool → PanelOrder → Action Bot (Unit {0})
unfolding clear_state answer_callback send_menu send order_owner_telegram_id
announce_approval w chat order_id accepts pressed order = do
  clear_state chat
  answer_if w pressed Notice.decision_recorded
  send_menu w chat (Notice.order_decided accepts)
  (λ b. elim (order_owner_telegram_id order_id b.db) [
    | none ↦ pure tt b
    | some customer ↦ send w customer (outcome accepts order).0 (outcome accepts order).1 b
  ])

unfoldable pub refuse_approval : World → ℕ → Bool → Action Bot (Unit {0})
unfolding clear_state answer_callback send_menu
refuse_approval w chat pressed = do
  clear_state chat
  answer_if w pressed Notice.refused
  send_menu w chat Notice.refused

-- the reason that a rejection in the chat gives
abbrev rejection : Bool → String
rejection true = ""
rejection false =
    "\u{631}\u{62f} \u{62a}\u{648}\u{633}\u{637} \u{645}\u{62f}\u{6cc}\u{631} \u{645}\u{62c}\u{645}\u{648}\u{639}\u{647}"

unfoldable pub apply_approval : World → ℕ → ℕ → Bool → Bool → OrderApproveIn → Action Bot (Unit {0})
unfolding announce_approval refuse_approval
apply_approval w chat order_id accepts pressed attach =
    or_refused
      (on_db (reviewer_order_action w.env w.now chat order_id accepts (rejection accepts) attach))
      (announce_approval w chat order_id accepts pressed) (refuse_approval w chat pressed)

abbrev pub account_form : Option ℕ → OrderApproveIn
account_form n = record { pg_admin_id = n; admin_username = none }

unfoldable pub continue_attach : World → ℕ → String → ℕ → Action Bot (Unit {0})
unfolding with_number is_skip apply_approval
continue_attach w chat value order_id =
    if is_skip (strip value)
    then apply_approval w chat order_id true false (account_form none)
    else with_number w value any_number (ask_again w chat Question.attach) (λ n.
      raise_if (not (is_account_id (some n))) validation_error
      >> apply_approval w chat order_id true false (account_form (some n)))
