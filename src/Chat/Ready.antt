-- ===== src/Chat/Ready.antt =====
-- What the bot stores is ready for the next answer: every dialogue holds the answers of the steps
-- that it has passed, within the bounds that the dialogue itself tests (telegram_consumer.py).
use pasarguard_control_plane.Base.{
  ℕ, zero, suc, ◌≤◌, ◌<◌, ◌≡◌, ◌⊎◌, String, true, not, Option, some, none, ◌==◌, All,
  where_rows-All, arith,
}
use Prim.Native.String.{count}
use Prim.Native.String.count
use pasarguard_control_plane.Orders.Names.{cut}
use pasarguard_control_plane.Chat.State.{
  OrderStep, OrderData, QuoteStep, QuoteData, CategoryStep, PlanStep, PlanData, ResellerStep,
  ResellerData, Dialogue, Question, Notice, Keyboard, World, set_state, clear_state,
}
use pasarguard_control_plane.Chat.Dialogues.{go_on}
use pasarguard_control_plane.Chat.Forms.{is_slug}
use pasarguard_control_plane.Chat.Stored.{States, Safe, bind, send-Safe}

-- The answer has been given, and it has the property.
abbrev pub Given : {A : Type 0} → Option A → (A → Type 0) → Type 0
Given none P = ⊥
Given (some a) P = P a

abbrev pub Fits : ℕ → ℕ → String → Type 0
Fits least most s = (least ≤ count s) × (count s ≤ most)

abbrev pub Within : ℕ → ℕ → Type 0
Within most n = (0 < n) × (n ≤ most)

abbrev pub Any : {A : Type 0} → A → Type 0
Any a = Unit

-- the size of an order: the plan's, or within the bounds
abbrev pub Sized : Option ℕ → Option ℕ → Type 0
Sized none n = Given n (Within 100_000)
Sized (some plan) n = Given n Any

abbrev pub OrderReady : OrderStep → OrderData → Type 0
OrderReady OrderStep.business_name x =
    (x.plan_id ≡ none) ⊎ (Sized x.plan_id x.user_count × Sized x.plan_id x.daily_gib)
OrderReady OrderStep.user_count x = (x.plan_id ≡ none) × Given x.business_name (Fits 2 160)
OrderReady OrderStep.daily_gib x =
    (x.plan_id ≡ none) × Given x.business_name (Fits 2 160) × Given x.user_count (Within 100_000)
OrderReady OrderStep.note x =
    Given x.business_name (Fits 2 160) × Sized x.plan_id x.user_count × Sized x.plan_id x.daily_gib

abbrev pub QuoteReady : QuoteStep → QuoteData → Type 0
QuoteReady QuoteStep.amount x = Unit
QuoteReady QuoteStep.credit x = Given x.amount_irr (λ n. 0 < n)
QuoteReady QuoteStep.price x = Given x.amount_irr (λ n. 0 < n) × Given x.credit_limit_irr Any
QuoteReady QuoteStep.instructions x =
    Given x.amount_irr (λ n. 0 < n)
    × Given x.credit_limit_irr Any
    × Given x.price_per_gib_irr (λ n. 0 < n)
QuoteReady QuoteStep.pg_admin_id x =
    Given x.amount_irr (λ n. 0 < n)
    × Given x.credit_limit_irr Any
    × Given x.price_per_gib_irr (λ n. 0 < n)
    × Given x.instructions (Fits 3 2000)

abbrev pub CategoryReady : CategoryStep → Option String → Type 0
CategoryReady CategoryStep.name given = Unit
CategoryReady CategoryStep.description given = Given given (Fits 2 80)

-- the answers of the questions before the current one
abbrev pub PlanReady : PlanStep → PlanData → Type 0
PlanReady PlanStep.panel x = Unit
PlanReady PlanStep.shelf x = Given x.panel_id Any
PlanReady PlanStep.name x = Given x.panel_id Any
PlanReady PlanStep.price_per_gib_irr x = Given x.panel_id Any × Given x.name (Fits 2 120)
PlanReady PlanStep.daily_gib x =
    Given x.panel_id Any
    × Given x.name (Fits 2 120)
    × Given x.price_per_gib_irr (Within 10_000_000_000_000)
PlanReady PlanStep.duration_days x =
    Given x.panel_id Any
    × Given x.name (Fits 2 120)
    × Given x.price_per_gib_irr (Within 10_000_000_000_000)
    × Given x.daily_gib (Within 100_000)
PlanReady PlanStep.user_count x =
    Given x.panel_id Any
    × Given x.name (Fits 2 120)
    × Given x.price_per_gib_irr (Within 10_000_000_000_000)
    × Given x.daily_gib (Within 100_000)
    × Given x.duration_days (Within 3650)
PlanReady PlanStep.credit_limit_irr x =
    Given x.panel_id Any
    × Given x.name (Fits 2 120)
    × Given x.price_per_gib_irr (Within 10_000_000_000_000)
    × Given x.daily_gib (Within 100_000)
    × Given x.duration_days (Within 3650)
    × Given x.user_count (Within 100_000)
PlanReady PlanStep.instructions x =
    Given x.panel_id Any
    × Given x.name (Fits 2 120)
    × Given x.price_per_gib_irr (Within 10_000_000_000_000)
    × Given x.daily_gib (Within 100_000)
    × Given x.duration_days (Within 3650)
    × Given x.user_count (Within 100_000)
    × Given x.credit_limit_irr Any

abbrev pub ResellerReady : ResellerStep → ResellerData → Type 0
ResellerReady ResellerStep.name x = Unit
ResellerReady ResellerStep.slug x = Given x.name (λ s. 2 ≤ count s)
ResellerReady ResellerStep.telegram_id x =
    Given x.name (λ s. 2 ≤ count s) × Given x.slug (λ s. is_slug s ≡ true)
ResellerReady ResellerStep.price x =
    Given x.name (λ s. 2 ≤ count s) × Given x.slug (λ s. is_slug s ≡ true) × Given x.telegram_id Any
ResellerReady ResellerStep.credit x =
    Given x.name (λ s. 2 ≤ count s)
    × Given x.slug (λ s. is_slug s ≡ true)
    × Given x.telegram_id Any
    × Given x.price Any

abbrev pub Ready : Dialogue → Type 0
Ready (Dialogue.order step x) = OrderReady step x
Ready (Dialogue.quote step x) = QuoteReady step x
Ready (Dialogue.category step x) = CategoryReady step x
Ready (Dialogue.plan step x) = PlanReady step x
Ready (Dialogue.attach order_id) = Unit
Ready Dialogue.credit = Unit
Ready (Dialogue.reseller step x) = ResellerReady step x

unfoldable pub AllReady : States → Type 0
AllReady states = All (λ e. Ready e.1) states

pub clear_state-Ready : (chat : ℕ) → Safe AllReady (clear_state chat)
unfolding clear_state AllReady
clear_state-Ready chat = record {
  run = λ s p. where_rows-All (λ e. Ready e.1) (λ e. not (e.0 == chat)) s.states p;
}

pub set_state-Ready : (chat : ℕ) (d : Dialogue) → Ready d → Safe AllReady (set_state chat d)
unfolding set_state AllReady
set_state-Ready chat d r = record {
  run = λ s p. (r, where_rows-All (λ e. Ready e.1) (λ e. not (e.0 == chat)) s.states p);
}

pub go_on-Ready :
    (w : World) (chat : ℕ) (d : Dialogue) (q : Question)
    → Ready d
    → Safe AllReady (go_on w chat d q)
unfolding go_on
go_on-Ready w chat d q r =
    bind AllReady (set_state-Ready chat d r)
      (λ _. send-Safe AllReady w chat (Notice.ask q) Keyboard.bare)

pub count-cut : (n : ℕ) (s : String) → count (cut n s) ≤ n
unfolding cut
count-cut zero s = omega arith
count-cut (suc n) String.[] = omega arith
count-cut (suc n) (String.◌∷◌ c s) = rw count.cons (omega (arith, count-cut n s))

pub le-count-cut : (k n : ℕ) (s : String) → k ≤ n → k ≤ count s → k ≤ count (cut n s)
unfolding cut
le-count-cut zero n s h g = omega arith
le-count-cut (suc k) zero s h g = absurd (omega arith)
le-count-cut (suc k) (suc n) String.[] h g = g
le-count-cut (suc k) (suc n) (String.◌∷◌ c s) h g =
    let longer : suc k ≤ suc (count s) = rw count.cons at g in
    rw count.cons (omega (arith, le-count-cut k n s (omega arith) (omega arith)))

pub cut-Fits :
    (least most : ℕ) (s : String) → least ≤ most → least ≤ count s → Fits least most (cut most s)
cut-Fits least most s h g = (le-count-cut least most s h g, count-cut most s)
