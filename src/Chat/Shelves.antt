-- ===== src/Chat/Shelves.antt =====
-- The dialogues for a shelf and for a plan (src/control_plane/telegram_consumer.py: begin_shelf,
-- begin_plan, catalog_list, catalog_panels, catalog_shelves, PLAN_QUESTIONS, PLAN_LIMITS,
-- continue_category, continue_plan). Buttons stand in the order of the tables, where the source
-- sorts them by name.
use pasarguard_control_plane.Base.{
  ℕ, String, str_eq, Bool, true, false, not, ◌&&◌, Option, some, none, List, [], ◌∷◌, ◌++◌, ◌==◌,
  ltb, leb, if◌then◌else◌, map, take, where_rows, sort_by, Result, ok, err, key_error,
  permission_error, Action, pure, gets, lift, raise_if, ◌>>=◌, ◌>>◌,
}
use Prim.Native.String.{count}
use pasarguard_control_plane.Store.{Db, Env}
use pasarguard_control_plane.Store.Rows.{is_active, Panel}
use pasarguard_control_plane.Orders.Names.{cut}
use pasarguard_control_plane.Identity.{owns_panel}
use pasarguard_control_plane.Catalog.{PlanIn}
use pasarguard_control_plane.Chat.Menus.{Section}
use pasarguard_control_plane.Chat.Callbacks.{Callback}
use pasarguard_control_plane.Chat.Digits.{strip}
use pasarguard_control_plane.Chat.Desk.{catalog_ctx, create_shelf, save_plan}
use pasarguard_control_plane.Chat.State.{
  CategoryStep, PlanStep, PlanData, Dialogue, Question, Notice, Keyboard, Bot, World, on_db,
  set_state, clear_state, send, or_refused,
}
use pasarguard_control_plane.Chat.Dialogues.{
  send_menu, abort_flow, ask_again, with_number, is_skip, to_section, go_on,
}
use pasarguard_control_plane.Chat.Quotes.{any_number}

abbrev pub single : {A : Type 0} → A → List A
single a = a ∷ []

-- the buttons under the list of the own shelves and plans
unfoldable pub catalog_list : Env → ℕ → Action Db (List (List Callback))
unfolding catalog_ctx
catalog_list env chat = do
  ctx ← catalog_ctx env chat
  gets (λ d.
      map (λ c. single (Callback.toggle_category c.id))
        (where_rows (λ c. c.organization_id == ctx.organization.id) d.categories)
      ++ (map (λ p. single (Callback.toggle_plan p.id))
            (sort_by (λ p q. ltb p.price_per_gib_irr q.price_per_gib_irr)
              (where_rows (λ p. p.organization_id == ctx.organization.id) d.plans))
          ++ (Callback.new_category ∷ Callback.new_plan ∷ [])
            ∷ single (Callback.section "menu")
            ∷ []))

-- the own active servers, of which the first fifteen get a button
unfoldable pub catalog_panels : Env → ℕ → Action Db (List (List Callback))
unfolding catalog_ctx owns_panel
catalog_panels env chat = do
  ctx ← catalog_ctx env chat
  rows ←
      gets (λ d.
        where_rows (λ p. owns_panel p.id ctx.organization.id d && is_active p.status) d.panels)
  raise_if (is_empty rows) permission_error
  pure (
      map (λ p. single (Callback.plan_server p.id)) (take 15 rows)
      ++ single (to_section Section.catalog) ∷ [])
  where
    is_empty : List Panel → Bool
    is_empty [] = true
    is_empty (_ ∷ _) = false

unfoldable pub catalog_shelves : Env → ℕ → Action Db (List (List Callback))
unfolding catalog_ctx
catalog_shelves env chat = do
  ctx ← catalog_ctx env chat
  gets (λ d.
      map (λ c. single (Callback.plan_shelf (some c.id)))
        (take 15 (where_rows (λ c. c.organization_id == ctx.organization.id) d.categories))
      ++ single (Callback.plan_shelf none) ∷ [])

unfoldable pub begin_shelf : World → ℕ → Action Bot (Unit {0})
unfolding go_on
begin_shelf w chat =
    go_on w chat (Dialogue.category CategoryStep.name none) (Question.category CategoryStep.name)

abbrev pub no_answers : PlanData
no_answers = record {
  panel_id = none;
  category_id = none;
  name = none;
  price_per_gib_irr = none;
  daily_gib = none;
  duration_days = none;
  user_count = none;
  credit_limit_irr = none;
  instructions = none;
}

unfoldable pub begin_plan : World → ℕ → Action Bot (Unit {0})
unfolding catalog_panels set_state send
begin_plan w chat = do
  servers ← on_db (catalog_panels w.env chat)
  set_state chat (Dialogue.plan PlanStep.panel no_answers)
  send w chat Notice.plan_servers (Keyboard.buttons servers)

-- the list again, under the news
unfoldable pub show_catalog : World → ℕ → Notice → Action Bot (Unit {0})
unfolding catalog_list send
show_catalog w chat news = do
  rows ← on_db (catalog_list w.env chat)
  send w chat news (Keyboard.buttons rows)

unfoldable pub finish_category : World → ℕ → Option String → String → Action Bot (Unit {0})
unfolding create_shelf clear_state show_catalog abort_flow
finish_category w chat none description = lift (err key_error)
finish_category w chat (some name) description =
    or_refused (on_db (create_shelf w.env chat (record { name = name; description = description })))
      (λ c. clear_state chat >> show_catalog w chat (Notice.shelf_made c.name)) (abort_flow w chat)

unfoldable pub continue_category :
    World → ℕ → String → CategoryStep → Option String → Action Bot (Unit {0})
unfolding go_on finish_category is_skip
continue_category w chat value CategoryStep.name given =
    if not (leb 2 (count value) && leb (count value) 80)
    then ask_again w chat (Question.category CategoryStep.name)
    else go_on w chat (Dialogue.category CategoryStep.description (some value))
        (Question.category CategoryStep.description)
continue_category w chat value CategoryStep.description given =
    finish_category w chat given (if is_skip value then "" else cut 500 value)

-- the next of `PLAN_QUESTIONS`
abbrev pub next_step : PlanStep → PlanStep
next_step PlanStep.panel = PlanStep.shelf
next_step PlanStep.shelf = PlanStep.name
next_step PlanStep.name = PlanStep.price_per_gib_irr
next_step PlanStep.price_per_gib_irr = PlanStep.daily_gib
next_step PlanStep.daily_gib = PlanStep.duration_days
next_step PlanStep.duration_days = PlanStep.user_count
next_step PlanStep.user_count = PlanStep.credit_limit_irr
next_step PlanStep.credit_limit_irr = PlanStep.instructions
next_step PlanStep.instructions = PlanStep.instructions

-- `PLAN_LIMITS`
abbrev pub plan_limit : PlanStep → ℕ
plan_limit PlanStep.price_per_gib_irr = 10_000_000_000_000
plan_limit PlanStep.daily_gib = 100_000
plan_limit PlanStep.duration_days = 3650
plan_limit PlanStep.user_count = 100_000
plan_limit _ = 0

abbrev pub in_plan_limit : PlanStep → ℕ → Bool
in_plan_limit step n = ltb 0 n && leb n (plan_limit step)

-- the answers with one number more
abbrev pub put_number : PlanStep → ℕ → PlanData → PlanData
put_number PlanStep.price_per_gib_irr n x = record x { price_per_gib_irr = some n }
put_number PlanStep.daily_gib n x = record x { daily_gib = some n }
put_number PlanStep.duration_days n x = record x { duration_days = some n }
put_number PlanStep.user_count n x = record x { user_count = some n }
put_number PlanStep.credit_limit_irr n x = record x { credit_limit_irr = some n }
put_number _ n x = x

abbrev pub given : {A : Type 0} → Option A → Result A
given none = err key_error
given (some a) = ok a

-- the plan that the answers make; a key that is missing raises
unfoldable pub collected_plan : PlanData → Action Bot PlanIn
collected_plan x = do
  panel_id ← lift (given x.panel_id)
  name ← lift (given x.name)
  price ← lift (given x.price_per_gib_irr)
  daily_gib ← lift (given x.daily_gib)
  duration_days ← lift (given x.duration_days)
  user_count ← lift (given x.user_count)
  credit ← lift (given x.credit_limit_irr)
  instructions ← lift (given x.instructions)
  pure (record {
    panel_id = panel_id;
    category_id = x.category_id;
    name = name;
    description = "";
    price_per_gib_irr = price;
    daily_gib = daily_gib;
    duration_days = duration_days;
    user_count = user_count;
    credit_limit_irr = credit;
    payment_instructions = instructions;
  })

unfoldable pub finish_plan : World → ℕ → PlanData → Action Bot (Unit {0})
unfolding collected_plan save_plan clear_state show_catalog send_menu abort_flow
finish_plan w chat x = do
  form ← collected_plan x
  or_refused (on_db (save_plan w.env chat form))
      (λ p. do
        clear_state chat
        show_catalog w chat (Notice.plan_made p)
        send_menu w chat Notice.refresh_orders)
      (abort_flow w chat)

abbrev pub to_next : World → ℕ → PlanStep → PlanData → Action Bot (Unit {0})
unfolding go_on
to_next w chat step x =
    go_on w chat (Dialogue.plan (next_step step) x) (Question.plan (next_step step))

abbrev pub ask_number : World → ℕ → String → PlanStep → PlanData → Action Bot (Unit {0})
ask_number w chat value step x =
    with_number w value (in_plan_limit step) (ask_again w chat (Question.plan step))
      (λ n. to_next w chat step (put_number step n x))

-- the word for "automatic", which leaves the credit to the price of the plan
abbrev pub automatic : String
automatic = "\u{62e}\u{648}\u{62f}\u{6a9}\u{627}\u{631}"

unfoldable pub continue_plan : World → ℕ → String → PlanStep → PlanData → Action Bot (Unit {0})
unfolding with_number go_on finish_plan
continue_plan w chat value PlanStep.panel x = ask_again w chat (Question.plan PlanStep.panel)
continue_plan w chat value PlanStep.shelf x = ask_again w chat (Question.plan PlanStep.shelf)
continue_plan w chat value PlanStep.name x =
    if not (leb 2 (count value) && leb (count value) 120)
    then ask_again w chat (Question.plan PlanStep.name)
    else to_next w chat PlanStep.name (record x { name = some value })
continue_plan w chat value PlanStep.instructions x =
    if ltb (count value) 3
    then ask_again w chat (Question.plan PlanStep.instructions)
    else finish_plan w chat (record x { instructions = some (cut 2000 value) })
continue_plan w chat value PlanStep.credit_limit_irr x =
    with_number w (if str_eq (strip value) automatic then "0" else value) any_number
      (ask_again w chat (Question.plan PlanStep.credit_limit_irr))
      (λ n. to_next w chat PlanStep.credit_limit_irr (put_number PlanStep.credit_limit_irr n x))
continue_plan w chat value PlanStep.price_per_gib_irr x =
    ask_number w chat value PlanStep.price_per_gib_irr x
continue_plan w chat value PlanStep.daily_gib x = ask_number w chat value PlanStep.daily_gib x
continue_plan w chat value PlanStep.duration_days x =
    ask_number w chat value PlanStep.duration_days x
continue_plan w chat value PlanStep.user_count x = ask_number w chat value PlanStep.user_count x
