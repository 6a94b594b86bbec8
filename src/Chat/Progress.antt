-- ===== src/Chat/Progress.antt =====
-- Every dialogue comes to its end (telegram_consumer.py: continue_state).
use pasarguard_control_plane.Base.{
  ℕ, ◌≤◌, ◌<◌, ◌≡◌, ◌⊎◌, refl, ◌∙◌, String, true, false, not, ◌&&◌, Option, some, none, [], ◌∷◌,
  ◌==◌, ltb, leb, str_eq, if◌then◌else◌, arith, Bool-cases, ==_refl, inl, inr, raise_if,
  validation_error,
}
use Prim.Native.String.{count}
use pasarguard_control_plane.Orders.Names.{cut}
use pasarguard_control_plane.Chat.Digits.{strip, number, isdigit}
use pasarguard_control_plane.Chat.Deals.{is_account_id}
use pasarguard_control_plane.Chat.State.{
  OrderStep, OrderData, QuoteStep, QuoteData, CategoryStep, PlanStep, PlanData, ResellerStep,
  ResellerData, Dialogue, Question, Notice, Keyboard, Bot, World, without, state_of, set_state,
  clear_state,
}
use pasarguard_control_plane.Chat.Dialogues.{
  ask_again, go_on, continue_order, after_name, upto_100000, is_skip,
}
use pasarguard_control_plane.Chat.Quotes.{continue_quote, continue_attach, is_positive, any_number}
use pasarguard_control_plane.Chat.Shelves.{
  continue_category, continue_plan, in_plan_limit, automatic,
}
use pasarguard_control_plane.Chat.Forms.{
  continue_credit, continue_reseller, is_slug, answer, continue_state,
}
use pasarguard_control_plane.Chat.Stored.{
  States, Safe, bind, send-Safe, send_menu-Safe, if_Safe, raise_if-Safe, with_number-Safe,
}
use pasarguard_control_plane.Chat.Ends.{
  finish_order-Safe, finish_quote-Safe, finish_category-Safe, finish_plan-Safe, finish_credit-Safe,
  finish_reseller-Safe, apply_approval-Safe,
}

-- how many answers a dialogue still asks for
abbrev pub answers_left : Dialogue → ℕ
answers_left (Dialogue.order OrderStep.business_name x) = 4
answers_left (Dialogue.order OrderStep.user_count x) = 3
answers_left (Dialogue.order OrderStep.daily_gib x) = 2
answers_left (Dialogue.order OrderStep.note x) = 1
answers_left (Dialogue.quote QuoteStep.amount x) = 5
answers_left (Dialogue.quote QuoteStep.credit x) = 4
answers_left (Dialogue.quote QuoteStep.price x) = 3
answers_left (Dialogue.quote QuoteStep.instructions x) = 2
answers_left (Dialogue.quote QuoteStep.pg_admin_id x) = 1
answers_left (Dialogue.category CategoryStep.name x) = 2
answers_left (Dialogue.category CategoryStep.description x) = 1
answers_left (Dialogue.plan PlanStep.panel x) = 9
answers_left (Dialogue.plan PlanStep.shelf x) = 8
answers_left (Dialogue.plan PlanStep.name x) = 7
answers_left (Dialogue.plan PlanStep.price_per_gib_irr x) = 6
answers_left (Dialogue.plan PlanStep.daily_gib x) = 5
answers_left (Dialogue.plan PlanStep.duration_days x) = 4
answers_left (Dialogue.plan PlanStep.user_count x) = 3
answers_left (Dialogue.plan PlanStep.credit_limit_irr x) = 2
answers_left (Dialogue.plan PlanStep.instructions x) = 1
answers_left (Dialogue.attach order_id) = 1
answers_left Dialogue.credit = 1
answers_left (Dialogue.reseller ResellerStep.name x) = 5
answers_left (Dialogue.reseller ResellerStep.slug x) = 4
answers_left (Dialogue.reseller ResellerStep.telegram_id x) = 3
answers_left (Dialogue.reseller ResellerStep.price x) = 2
answers_left (Dialogue.reseller ResellerStep.credit x) = 1

-- The dialogue is over, is the one that it was, or asks for fewer answers.
abbrev pub IsNearer : Dialogue → Option Dialogue → Type 0
IsNearer d none = Unit
IsNearer d (some d') = (d' ≡ d) ⊎ (answers_left d' < answers_left d)

state_of-without :
    (chat c : ℕ) (states : States)
    → state_of chat (without c states) ≡ (if c == chat then none else state_of chat states)
unfolding state_of
state_of-without chat c [] = ground arith
state_of-without chat c ((k, x) ∷ rest) = ground (arith, state_of-without chat c rest)

module _ (chat : ℕ) (d : Dialogue) where
  Nearer : States → Type 0
  Nearer states = IsNearer d (state_of chat states)

  clear_state-Nearer : (c : ℕ) → Safe Nearer (clear_state c)
  unfolding clear_state Nearer
  clear_state-Nearer c = record {
    run = λ s p.
        rw (state_of-without chat c s.states)
          (elim (Bool-cases (c == chat)) [ inl e ↦ rw e tt | inr e ↦ rw e p ]);
  }

  set_state-Nearer :
      (d' : Dialogue) → answers_left d' < answers_left d → Safe Nearer (set_state chat d')
  unfolding set_state Nearer state_of
  set_state-Nearer d' h = record { run = λ s p. rw (==_refl chat, state_of) (inr h) }

  go_on-Nearer :
      (w : World) (d' : Dialogue) (q : Question)
      → answers_left d' < answers_left d
      → Safe Nearer (go_on w chat d' q)
  unfolding go_on
  go_on-Nearer w d' q h =
      bind Nearer (set_state-Nearer d' h)
        (λ _. send-Safe Nearer w chat (Notice.ask q) Keyboard.bare)

  again : (w : World) (q : Question) → Safe Nearer (ask_again w chat q)
  again w q = send-Safe Nearer w chat (Notice.ask_again q) Keyboard.bare

after_name-lt :
    (plan : Option ℕ) (x : OrderData) → answers_left (Dialogue.order (after_name plan) x) < 4
after_name-lt none x = omega arith
after_name-lt (some p) x = omega arith

module _ (w : World) (chat : ℕ) (value : String) where
  continue_order-Nearer :
      (step : OrderStep) (x : OrderData)
      → Safe (Nearer chat (Dialogue.order step x)) (continue_order w chat value step x)
  unfolding continue_order
  continue_order-Nearer OrderStep.business_name x =
      if_Safe _ (ltb (count value) 2) (again chat _ w _)
        (go_on-Nearer chat _ w _ _ (after_name-lt x.plan_id _))
  continue_order-Nearer OrderStep.user_count x =
      with_number-Safe _ w value upto_100000 (again chat _ w _)
        (λ n _. go_on-Nearer chat _ w _ _ (omega arith))
  continue_order-Nearer OrderStep.daily_gib x =
      with_number-Safe _ w value upto_100000 (again chat _ w _)
        (λ n _. go_on-Nearer chat _ w _ _ (omega arith))
  continue_order-Nearer OrderStep.note x =
      finish_order-Safe _ (clear_state-Nearer chat _) w chat x _

  continue_quote-Nearer :
      (step : QuoteStep) (x : QuoteData)
      → Safe (Nearer chat (Dialogue.quote step x)) (continue_quote w chat value step x)
  unfolding continue_quote
  continue_quote-Nearer QuoteStep.amount x =
      with_number-Safe _ w value is_positive (again chat _ w _)
        (λ n _. go_on-Nearer chat _ w _ _ (omega arith))
  continue_quote-Nearer QuoteStep.credit x =
      with_number-Safe _ w value any_number (again chat _ w _)
        (λ n _. go_on-Nearer chat _ w _ _ (omega arith))
  continue_quote-Nearer QuoteStep.price x =
      with_number-Safe _ w value is_positive (again chat _ w _)
        (λ n _. go_on-Nearer chat _ w _ _ (omega arith))
  continue_quote-Nearer QuoteStep.instructions x =
      if_Safe _ (ltb (count value) 3) (again chat _ w _) (go_on-Nearer chat _ w _ _ (omega arith))
  continue_quote-Nearer QuoteStep.pg_admin_id x =
      if_Safe _ (is_skip value) (finish_quote-Safe _ (clear_state-Nearer chat _) w chat x none) (
        with_number-Safe _ w value any_number (again chat _ w _)
          (λ n _. finish_quote-Safe _ (clear_state-Nearer chat _) w chat x (some n)))

  continue_category-Nearer :
      (step : CategoryStep) (x : Option String)
      → Safe (Nearer chat (Dialogue.category step x)) (continue_category w chat value step x)
  unfolding continue_category
  continue_category-Nearer CategoryStep.name x =
      if_Safe _ (not (leb 2 (count value) && leb (count value) 80)) (again chat _ w _)
        (go_on-Nearer chat _ w _ _ (omega arith))
  continue_category-Nearer CategoryStep.description x =
      finish_category-Safe _ (clear_state-Nearer chat _) w chat x _

  continue_plan-Nearer :
      (step : PlanStep) (x : PlanData)
      → Safe (Nearer chat (Dialogue.plan step x)) (continue_plan w chat value step x)
  unfolding continue_plan
  continue_plan-Nearer PlanStep.panel x = again chat _ w _
  continue_plan-Nearer PlanStep.shelf x = again chat _ w _
  continue_plan-Nearer PlanStep.name x =
      if_Safe _ (not (leb 2 (count value) && leb (count value) 120)) (again chat _ w _)
        (go_on-Nearer chat _ w _ _ (omega arith))
  continue_plan-Nearer PlanStep.price_per_gib_irr x =
      with_number-Safe _ w value (in_plan_limit PlanStep.price_per_gib_irr) (again chat _ w _)
        (λ n _. go_on-Nearer chat _ w _ _ (omega arith))
  continue_plan-Nearer PlanStep.daily_gib x =
      with_number-Safe _ w value (in_plan_limit PlanStep.daily_gib) (again chat _ w _)
        (λ n _. go_on-Nearer chat _ w _ _ (omega arith))
  continue_plan-Nearer PlanStep.duration_days x =
      with_number-Safe _ w value (in_plan_limit PlanStep.duration_days) (again chat _ w _)
        (λ n _. go_on-Nearer chat _ w _ _ (omega arith))
  continue_plan-Nearer PlanStep.user_count x =
      with_number-Safe _ w value (in_plan_limit PlanStep.user_count) (again chat _ w _)
        (λ n _. go_on-Nearer chat _ w _ _ (omega arith))
  continue_plan-Nearer PlanStep.credit_limit_irr x =
      with_number-Safe _ w (if str_eq (strip value) automatic then "0" else value) any_number
        (again chat _ w _) (λ n _. go_on-Nearer chat _ w _ _ (omega arith))
  continue_plan-Nearer PlanStep.instructions x =
      if_Safe _ (ltb (count value) 3) (again chat _ w _) (
        finish_plan-Safe _ (clear_state-Nearer chat _) w chat
          (record x { instructions = some (cut 2000 value) }))

  continue_attach-Nearer :
      (order_id : ℕ)
      → Safe (Nearer chat (Dialogue.attach order_id)) (continue_attach w chat value order_id)
  unfolding continue_attach
  continue_attach-Nearer order_id =
      if_Safe _ (is_skip (strip value))
        (apply_approval-Safe _ (clear_state-Nearer chat _) w chat order_id true false _)
        (with_number-Safe _ w value any_number (again chat _ w _) (λ n _.
          bind _ {m = raise_if (not (is_account_id (some n))) validation_error}
            (raise_if-Safe _ _ _)
            (λ _. apply_approval-Safe _ (clear_state-Nearer chat _) w chat order_id true false _)))

  continue_reseller-Nearer :
      (step : ResellerStep) (x : ResellerData)
      → Safe (Nearer chat (Dialogue.reseller step x)) (continue_reseller w chat value step x)
  unfolding continue_reseller
  continue_reseller-Nearer ResellerStep.name x =
      if_Safe _ (ltb (count value) 2) (again chat _ w _) (go_on-Nearer chat _ w _ _ (omega arith))
  continue_reseller-Nearer ResellerStep.slug x =
      if_Safe _ (not (is_slug value)) (again chat _ w _) (go_on-Nearer chat _ w _ _ (omega arith))
  continue_reseller-Nearer ResellerStep.telegram_id x =
      if_Safe _ (not (isdigit w.script value)) (again chat _ w _)
        (go_on-Nearer chat _ w _ _ (omega arith))
  continue_reseller-Nearer ResellerStep.price x =
      with_number-Safe _ w value is_positive (again chat _ w _)
        (λ n _. go_on-Nearer chat _ w _ _ (omega arith))
  continue_reseller-Nearer ResellerStep.credit x =
      if_Safe _ (not (isdigit w.script (number value))) (again chat _ w _)
        (finish_reseller-Safe _ (clear_state-Nearer chat _) w chat x (number value))

  answer-Nearer : (d : Dialogue) → Safe (Nearer chat d) (answer w chat value d)
  unfolding answer continue_credit
  answer-Nearer (Dialogue.order step x) = continue_order-Nearer step x
  answer-Nearer (Dialogue.quote step x) = continue_quote-Nearer step x
  answer-Nearer (Dialogue.category step x) = continue_category-Nearer step x
  answer-Nearer (Dialogue.plan step x) = continue_plan-Nearer step x
  answer-Nearer (Dialogue.attach order_id) = continue_attach-Nearer order_id
  answer-Nearer Dialogue.credit =
      with_number-Safe _ w value is_positive (again chat _ w _)
        (λ n _. finish_credit-Safe _ (clear_state-Nearer chat _) w chat n)
  answer-Nearer (Dialogue.reseller step x) = continue_reseller-Nearer step x

-- A dialogue that its chat answers is over afterwards, waits for the same answer as before, or has
-- fewer answers to ask for, of which there are never more than nine: an exception on the way does
-- not change that. After "/cancel" it is over.
pub continue_state-IsNearer :
    (w : World) (chat : ℕ) (value : String) (d : Dialogue) (b : Bot)
    → state_of chat b.states ≡ some d
    → IsNearer d (state_of chat (continue_state w chat value d b).1.states)
      × (answers_left d ≤ 9)
      × (str_eq value "/cancel" ≡ true
          → state_of chat (continue_state w chat value d b).1.states ≡ none)
unfolding continue_state Nearer clear_state
continue_state-IsNearer w chat value d b here =
    let now : Nearer chat d b.states = rw here (inl refl) in
    (
      (if_Safe (Nearer chat d) (str_eq value "/cancel")
            (bind (Nearer chat d) (clear_state-Nearer chat d chat)
              (λ _. send_menu-Safe (Nearer chat d) w chat Notice.cancelled))
            (answer-Nearer w chat value d)).run
          b now,
      at_most_nine d,
      (λ leave. rw leave (
          (send_menu-Safe (λ z. state_of chat z ≡ none) w chat Notice.cancelled).run
            (clear_state chat b).1 (state_of-without chat chat b.states ∙ rw (==_refl chat) refl))),
    )
  where
    at_most_nine : (d : Dialogue) → answers_left d ≤ 9
    at_most_nine d = ground arith
