-- ===== src/Chat/Steps.antt =====
-- Every answer leaves the stored dialogues ready (telegram_consumer.py: continue_order,
-- continue_quote, continue_category, continue_plan, continue_state).
use pasarguard_control_plane.Base.{
  ℕ, ◌≡◌, refl, String, Bool, true, false, not, ◌&&◌, Option, some, none, ltb, leb, str_eq,
  if◌then◌else◌, Action, raise_if, validation_error, arith, Option-cases, inl, inr,
}
use Prim.Native.String.{count}
use pasarguard_control_plane.Orders.Names.{cut}
use pasarguard_control_plane.Chat.State.{
  OrderStep, OrderData, QuoteStep, QuoteData, CategoryStep, PlanStep, PlanData, ResellerStep,
  ResellerData, Dialogue, Question, Notice, Keyboard, Bot, World,
}
use pasarguard_control_plane.Chat.Dialogues.{
  ask_again, continue_order, after_name, upto_100000, is_skip,
}
use pasarguard_control_plane.Chat.Quotes.{continue_quote, continue_attach, is_positive, any_number}
use pasarguard_control_plane.Chat.Digits.{strip, number, isdigit}
use pasarguard_control_plane.Chat.Deals.{is_account_id}
use pasarguard_control_plane.Chat.Shelves.{
  continue_category, continue_plan, in_plan_limit, automatic,
}
use pasarguard_control_plane.Chat.Forms.{
  continue_credit, continue_reseller, is_slug, answer, continue_state,
}
use pasarguard_control_plane.Chat.Stored.{
  Safe, bind, send-Safe, send_menu-Safe, raise_if-Safe, with_number-Safe,
}
use pasarguard_control_plane.Chat.Ends.{
  finish_order-Safe, finish_quote-Safe, finish_category-Safe, finish_plan-Safe, finish_credit-Safe,
  finish_reseller-Safe, apply_approval-Safe,
}
use pasarguard_control_plane.Chat.Ready.{
  Fits, Within, OrderReady, QuoteReady, CategoryReady, PlanReady, ResellerReady, Ready, AllReady,
  clear_state-Ready, go_on-Ready, cut-Fits,
}

module _ (w : World) (chat : ℕ) (value : String) where
  -- an answer that is asked for again, or goes on with what it shows
  either :
      (c : Bool) {m n : Action Bot (Unit {0})}
      → Safe AllReady m
      → (c ≡ false → Safe AllReady n)
      → Safe AllReady (if c then m else n)
  either true h k = h
  either false h k = k refl

  again : (q : Question) → Safe AllReady (ask_again w chat q)
  again q = send-Safe AllReady w chat (Notice.ask_again q) Keyboard.bare

  within : (most n : ℕ) → (ltb 0 n && leb n most) ≡ true → Within most n
  within most n h = ground arith

  after_name-Ready :
      (x : OrderData) (s : String)
      → OrderReady OrderStep.business_name x
      → Fits 2 160 s
      → OrderReady (after_name x.plan_id) (record x { business_name = some s })
  after_name-Ready x s (inl h) f = rw h (refl, f)
  after_name-Ready x s (inr h) f = elim (Option-cases x.plan_id) [
    | inl e ↦ rw e (refl, f)
    | inr (p, e) ↦ rw e (f, (rw e at h.0), (rw e at h.1))
  ]

  continue_order-Ready :
      (step : OrderStep) (x : OrderData)
      → OrderReady step x
      → Safe AllReady (continue_order w chat value step x)
  unfolding continue_order
  continue_order-Ready OrderStep.business_name x r =
      either (ltb (count value) 2) (again (Question.order OrderStep.business_name)) (λ long.
        go_on-Ready w chat _ _ (
          after_name-Ready x (cut 160 value) r
            (cut-Fits 2 160 value (omega arith) (ground (arith, long)))))
  continue_order-Ready OrderStep.user_count x r =
      with_number-Safe AllReady w value upto_100000 (again (Question.order OrderStep.user_count))
        (λ n good. go_on-Ready w chat _ _ (r.0, r.1, within 100_000 n good))
  continue_order-Ready OrderStep.daily_gib x r =
      with_number-Safe AllReady w value upto_100000 (again (Question.order OrderStep.daily_gib))
        (λ n good. go_on-Ready w chat _ _ (r.1, (rw r.0 r.2), (rw r.0 (within 100_000 n good))))
  continue_order-Ready OrderStep.note x r = finish_order-Safe AllReady clear_state-Ready w chat x _

  continue_quote-Ready :
      (step : QuoteStep) (x : QuoteData)
      → QuoteReady step x
      → Safe AllReady (continue_quote w chat value step x)
  unfolding continue_quote
  continue_quote-Ready QuoteStep.amount x r =
      with_number-Safe AllReady w value is_positive (again (Question.quote QuoteStep.amount))
        (λ n good. go_on-Ready w chat _ _ (ground (arith, good)))
  continue_quote-Ready QuoteStep.credit x r =
      with_number-Safe AllReady w value any_number (again (Question.quote QuoteStep.credit))
        (λ n good. go_on-Ready w chat _ _ (r, tt))
  continue_quote-Ready QuoteStep.price x r =
      with_number-Safe AllReady w value is_positive (again (Question.quote QuoteStep.price))
        (λ n good. go_on-Ready w chat _ _ (r.0, r.1, ground (arith, good)))
  continue_quote-Ready QuoteStep.instructions x r =
      either (ltb (count value) 3) (again (Question.quote QuoteStep.instructions)) (λ long.
        go_on-Ready w chat _ _
          (r.0, r.1, r.2, cut-Fits 3 2000 value (omega arith) (ground (arith, long))))
  continue_quote-Ready QuoteStep.pg_admin_id x r =
      either (is_skip value) (finish_quote-Safe AllReady clear_state-Ready w chat x none) (λ _.
        with_number-Safe AllReady w value any_number (again (Question.quote QuoteStep.pg_admin_id))
          (λ n good. finish_quote-Safe AllReady clear_state-Ready w chat x (some n)))

  continue_category-Ready :
      (step : CategoryStep) (x : Option String)
      → CategoryReady step x
      → Safe AllReady (continue_category w chat value step x)
  unfolding continue_category
  continue_category-Ready CategoryStep.name x r =
      either (not (leb 2 (count value) && leb (count value) 80))
        (again (Question.category CategoryStep.name))
        (λ fits. go_on-Ready w chat _ _ (ground (arith, fits)))
  continue_category-Ready CategoryStep.description x r =
      finish_category-Safe AllReady clear_state-Ready w chat x _

  continue_attach-Ready : (order_id : ℕ) → Safe AllReady (continue_attach w chat value order_id)
  unfolding continue_attach
  continue_attach-Ready order_id =
      either (is_skip (strip value))
        (apply_approval-Safe AllReady clear_state-Ready w chat order_id true false _)
        (λ _. with_number-Safe AllReady w value any_number (again Question.attach) (λ n good.
          bind AllReady {m = raise_if (not (is_account_id (some n))) validation_error}
            (raise_if-Safe AllReady _ _)
            (λ _. apply_approval-Safe AllReady clear_state-Ready w chat order_id true false _)))

  continue_reseller-Ready :
      (step : ResellerStep) (x : ResellerData)
      → ResellerReady step x
      → Safe AllReady (continue_reseller w chat value step x)
  unfolding continue_reseller
  continue_reseller-Ready ResellerStep.name x r =
      either (ltb (count value) 2) (again (Question.reseller ResellerStep.name))
        (λ long. go_on-Ready w chat _ _ (ground (arith, long)))
  continue_reseller-Ready ResellerStep.slug x r =
      either (not (is_slug value)) (again (Question.reseller ResellerStep.slug))
        (λ slug. go_on-Ready w chat _ _ (r, ground (arith, slug)))
  continue_reseller-Ready ResellerStep.telegram_id x r =
      either (not (isdigit w.script value)) (again (Question.reseller ResellerStep.telegram_id))
        (λ _. go_on-Ready w chat _ _ (r.0, r.1, tt))
  continue_reseller-Ready ResellerStep.price x r =
      with_number-Safe AllReady w value is_positive (again (Question.reseller ResellerStep.price))
        (λ n _. go_on-Ready w chat _ _ (r.0, r.1, r.2, tt))
  continue_reseller-Ready ResellerStep.credit x r =
      either (not (isdigit w.script (number value))) (again (Question.reseller ResellerStep.credit))
        (λ _. finish_reseller-Safe AllReady clear_state-Ready w chat x (number value))

  continue_plan-Ready :
      (step : PlanStep) (x : PlanData)
      → PlanReady step x
      → Safe AllReady (continue_plan w chat value step x)
  unfolding continue_plan
  continue_plan-Ready PlanStep.panel x r = again (Question.plan PlanStep.panel)
  continue_plan-Ready PlanStep.shelf x r = again (Question.plan PlanStep.shelf)
  continue_plan-Ready PlanStep.name x r =
      either (not (leb 2 (count value) && leb (count value) 120))
        (again (Question.plan PlanStep.name))
        (λ fits. go_on-Ready w chat _ _ (r, ground (arith, fits)))
  continue_plan-Ready PlanStep.price_per_gib_irr x r =
      with_number-Safe AllReady w value (in_plan_limit PlanStep.price_per_gib_irr)
        (again (Question.plan PlanStep.price_per_gib_irr))
        (λ n good. go_on-Ready w chat _ _ (r.0, r.1, within 10_000_000_000_000 n good))
  continue_plan-Ready PlanStep.daily_gib x r =
      with_number-Safe AllReady w value (in_plan_limit PlanStep.daily_gib)
        (again (Question.plan PlanStep.daily_gib))
        (λ n good. go_on-Ready w chat _ _ (r.0, r.1, r.2, within 100_000 n good))
  continue_plan-Ready PlanStep.duration_days x r =
      with_number-Safe AllReady w value (in_plan_limit PlanStep.duration_days)
        (again (Question.plan PlanStep.duration_days))
        (λ n good. go_on-Ready w chat _ _ (r.0, r.1, r.2, r.3, within 3650 n good))
  continue_plan-Ready PlanStep.user_count x r =
      with_number-Safe AllReady w value (in_plan_limit PlanStep.user_count)
        (again (Question.plan PlanStep.user_count))
        (λ n good. go_on-Ready w chat _ _ (r.0, r.1, r.2, r.3, r.4, within 100_000 n good))
  continue_plan-Ready PlanStep.credit_limit_irr x r =
      with_number-Safe AllReady w (if str_eq (strip value) automatic then "0" else value) any_number
        (again (Question.plan PlanStep.credit_limit_irr))
        (λ n _. go_on-Ready w chat _ _ (r.0, r.1, r.2, r.3, r.4, r.5, tt))
  continue_plan-Ready PlanStep.instructions x r =
      either (ltb (count value) 3) (again (Question.plan PlanStep.instructions)) (λ _.
        finish_plan-Safe AllReady clear_state-Ready w chat
          (record x { instructions = some (cut 2000 value) }))

  pub answer-Ready : (d : Dialogue) → Ready d → Safe AllReady (answer w chat value d)
  unfolding answer continue_credit
  answer-Ready (Dialogue.order step x) r = continue_order-Ready step x r
  answer-Ready (Dialogue.quote step x) r = continue_quote-Ready step x r
  answer-Ready (Dialogue.category step x) r = continue_category-Ready step x r
  answer-Ready (Dialogue.plan step x) r = continue_plan-Ready step x r
  answer-Ready (Dialogue.attach order_id) r = continue_attach-Ready order_id
  answer-Ready Dialogue.credit r =
      with_number-Safe AllReady w value is_positive (again Question.credit)
        (λ n _. finish_credit-Safe AllReady clear_state-Ready w chat n)
  answer-Ready (Dialogue.reseller step x) r = continue_reseller-Ready step x r

  pub continue_state-Ready :
      (d : Dialogue) → Ready d → Safe AllReady (continue_state w chat value d)
  unfolding continue_state
  continue_state-Ready d r =
      either (str_eq value "/cancel")
        (bind AllReady (clear_state-Ready chat)
          (λ _. send_menu-Safe AllReady w chat Notice.cancelled))
        (λ _. answer-Ready d r)
