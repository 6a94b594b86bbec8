-- ===== src/Chat/Collected.antt =====
-- The forms that the dialogues fill in are forms that the web app would take (telegram_consumer.py:
-- the last steps of continue_order, continue_quote, continue_plan).
use pasarguard_control_plane.Base.{
  ℕ, ◌≤◌, ◌<◌, ◌≡◌, refl, sym, String, Bool, true, ◌&&◌, Option, some, none, ok, ltb, leb, arith,
}
use Prim.Native.String.{count}
use pasarguard_control_plane.Orders.{OrderIn}
use pasarguard_control_plane.Orders.Seller.{OrderQuoteIn}
use pasarguard_control_plane.Catalog.{PlanIn}
use pasarguard_control_plane.Chat.Deals.{is_account_id, quote_is_valid}
use pasarguard_control_plane.Chat.Desk.{plan_is_valid}
use pasarguard_control_plane.Chat.State.{
  OrderStep, OrderData, QuoteStep, QuoteData, PlanStep, PlanData, Bot,
}
use pasarguard_control_plane.Chat.Dialogues.{collected_order}
use pasarguard_control_plane.Chat.Quotes.{collected_quote}
use pasarguard_control_plane.Chat.Shelves.{collected_plan}
use pasarguard_control_plane.Chat.Ready.{
  Given, Fits, Within, Any, Sized, OrderReady, QuoteReady, PlanReady,
}

given_some : {A : Type 0} (o : Option A) (P : A → Type 0) → Given o P → (a : A) × (o ≡ some a) × P a
given_some none P h = absurd h
given_some (some a) P h = (a, refl, h)

Sized-some : (plan o : Option ℕ) → Sized plan o → (n : ℕ) × (o ≡ some n) × Sized plan (some n)
Sized-some none none h = absurd h
Sized-some none (some n) h = (n, refl, h)
Sized-some (some plan) none h = absurd h
Sized-some (some plan) (some n) h = (n, refl, h)

-- an order within the bounds of the web form; with a plan, the size is the plan's
abbrev pub IsOrderForm : OrderData → OrderIn → Type 0
IsOrderForm x form =
    (form.panel_id ≡ x.panel_id)
    × (form.plan_id ≡ x.plan_id)
    × Fits 2 160 form.business_name
    × Sized form.plan_id (some form.user_count)
    × Sized form.plan_id (some form.daily_gib)

-- The last answer of an order's dialogue always makes a form, with the server and the plan that the
-- dialogue began with, and within the bounds that the web form sets to an order without a plan.
pub collected_order-IsOrderForm :
    (x : OrderData) (note : String)
    → OrderReady OrderStep.note x
    → (form : OrderIn) × (collected_order x note ≡ ok form)
      × (form.note ≡ note)
      × IsOrderForm x form
unfolding collected_order
collected_order-IsOrderForm x note (n, u, g) =
    let (name, e, f) = given_some x.business_name (Fits 2 160) n in
    let (users, eu, fu) = Sized-some x.plan_id x.user_count u in
    let (gib, eg, fg) = Sized-some x.plan_id x.daily_gib g in
    (
      record {
        panel_id = x.panel_id;
        plan_id = x.plan_id;
        business_name = name;
        user_count = users;
        daily_gib = gib;
        note = note;
      },
      rw (e, eu, eg) refl,
      refl,
      (refl, refl, f, fu, fg),
    )

-- The last answer of a quote's dialogue always makes a form. The web form takes it exactly when its
-- amount is at most ten trillion and the account that it may name is not 0; the dialogue asks for
-- neither.
pub collected_quote-is_valid :
    (x : QuoteData) (account : Option ℕ)
    → QuoteReady QuoteStep.pg_admin_id x
    → (form : OrderQuoteIn) × (collected_quote x account ≡ ok form)
      × (form.pg_admin_id ≡ account)
      × (quote_is_valid form ≡ (leb form.amount_irr 10_000_000_000_000 && is_account_id account))
unfolding collected_quote quote_is_valid
collected_quote-is_valid x account (a, c, p, i) =
    let (amount, ea, fa) = given_some x.amount_irr (λ n. 0 < n) a in
    let (credit, ec, fc) = given_some x.credit_limit_irr Any c in
    let (price, ep, fp) = given_some x.price_per_gib_irr (λ n. 0 < n) p in
    let (text, ei, fi) = given_some x.instructions (Fits 3 2000) i in
    (
      record {
        amount_irr = amount;
        credit_limit_irr = credit;
        price_per_gib_irr = price;
        payment_instructions = text;
        pg_admin_id = account;
      },
      rw (ea, ec, ep, ei) refl,
      refl,
      bounds amount price (count text) (is_account_id account) fa fp fi.0 fi.1,
    )
  where
    bounds :
        (amount price length : ℕ) (account : Bool)
        → 0 < amount
        → 0 < price
        → 3 ≤ length
        → length ≤ 2000
        → ((ltb 0 amount && leb amount 10_000_000_000_000)
            && ltb 0 price
            && (leb 3 length && leb length 2000)
            && account)
          ≡ (leb amount 10_000_000_000_000 && account)
    bounds amount price length account ha hp lo hi = ground arith

-- The last answer of a plan's dialogue always makes a form, on the server that was chosen, and the
-- web form would take it.
pub collected_plan-is_valid :
    (x : PlanData) (text : String) (b : Bot)
    → PlanReady PlanStep.instructions x
    → Fits 3 2000 text
    → (form : PlanIn) × (collected_plan (record x { instructions = some text }) b ≡ (ok form, b))
      × (some form.panel_id ≡ x.panel_id)
      × (form.category_id ≡ x.category_id)
      × (plan_is_valid form ≡ true)
unfolding collected_plan plan_is_valid
collected_plan-is_valid x text b (p, n, c, g, d, u, l) h =
    let (panel, ep, _) = given_some x.panel_id Any p in
    let (name, en, fn) = given_some x.name (Fits 2 120) n in
    let (price, ec, fc) = given_some x.price_per_gib_irr (Within 10_000_000_000_000) c in
    let (gib, eg, fg) = given_some x.daily_gib (Within 100_000) g in
    let (days, ed, fd) = given_some x.duration_days (Within 3650) d in
    let (users, eu, fu) = given_some x.user_count (Within 100_000) u in
    let (credit, el, _) = given_some x.credit_limit_irr Any l in
    (
      record {
        panel_id = panel;
        category_id = x.category_id;
        name = name;
        description = "";
        price_per_gib_irr = price;
        daily_gib = gib;
        duration_days = days;
        user_count = users;
        credit_limit_irr = credit;
        payment_instructions = text;
      },
      rw (ep, en, ec, eg, ed, eu, el) refl,
      sym ep,
      refl,
      ground (arith, fn, fc, fg, fd, fu, h),
    )
