-- ===== src/Tests/Dialogue.antt =====
-- Runs of the bot's dialogues: messages, presses and what they do to the tables.
use pasarguard_control_plane.Base.{
  ◌-◌, ◌≤◌, ◌≡◌, refl, true, false, some, none, [], ◌∷◌, ok, leb, ◌&&◌, if◌then◌else◌, arith,
  str_eq,
}
use pasarguard_control_plane.Store.{Db}
use pasarguard_control_plane.Store.Rows.{OrderStatus}
use pasarguard_control_plane.Servers.{Upstream}
use pasarguard_control_plane.Identity.{order_permission}
use pasarguard_control_plane.Catalog.{PlanCategoryIn, PlanIn, web_create_category, web_create_plan}
use pasarguard_control_plane.Orders.Customer.{customer_step}
use pasarguard_control_plane.Orders.Seller.{OrderQuoteIn, OrderApproveIn}
use pasarguard_control_plane.Chat.Digits.{whole, number}
use pasarguard_control_plane.Chat.State.{
  OrderStep, OrderData, QuoteData, Dialogue, Bot, World, state_of,
}
use pasarguard_control_plane.Chat.Context.{refusal}
use pasarguard_control_plane.Chat.Deals.{
  quote_is_valid, is_account_id, reviewer_order_action, customer_order_action,
}
use pasarguard_control_plane.Chat.Desk.{create_shelf, save_plan, category_is_valid, plan_is_valid}
use pasarguard_control_plane.Chat.AsWeb.{IsQuery, HasOneMembership}
use pasarguard_control_plane.Identity.{active_actor, active_member}
use pasarguard_control_plane.Chat.Agrees.{
  forget, web_decision, reviewer_order_action-as_web, catalog-as_web, customer_order_action-as_web,
}
use pasarguard_control_plane.Chat.Quotes.{collected_quote}
use pasarguard_control_plane.Chat.Forms.{continue_state}
use pasarguard_control_plane.Chat.Dispatch.{Update, update}
use pasarguard_control_plane.Chat.Ready.{AllReady}
use pasarguard_control_plane.Chat.Kept.{update-AllReady}
use pasarguard_control_plane.Chat.Collected.{collected_quote-is_valid}
use pasarguard_control_plane.Chat.Progress.{answers_left, IsNearer, continue_state-IsNearer}
use pasarguard_control_plane.Ledger.Sound.{IsSound}
use pasarguard_control_plane.Chat.Calls.{BotCall, perform, perform-IsSound}
use pasarguard_control_plane.Tests.Kernel.{no_books-IsSound}
use pasarguard_control_plane.Tests.Data.{db_with, env}

-- Telegram takes every message, and the server answers.
abbrev world : World
world = record {
  env = env;
  now = 99;
  script = record {
    is_digit = λ c. leb 48 c && leb c 57;
    decimal = λ c. if leb 48 c && leb c 57 then some (c - 48) else none;
  };
  ids = record { id_text = λ n. ""; id_of = λ s. 0 };
  draws = "panel-9" ∷ [];
  delivers = λ chat. true;
  answers = true;
  nodes = λ p. Upstream.answered [];
  run = λ call node p. Upstream.answered "";
}

abbrev db : Db
db = db_with OrderStatus.payment_declared

-- an order that waits for its second number
abbrev half_order : OrderData
half_order = record {
  panel_id = 20;
  plan_id = none;
  business_name = some "cafe";
  user_count = some 5;
  daily_gib = none;
}

abbrev bot : Bot
bot = record {
  db = db;
  states = (9, Dialogue.order OrderStep.daily_gib half_order) ∷ [];
  sent = [];
}

half_order-AllReady : AllReady bot.states
unfolding AllReady
half_order-AllReady = ((refl, ground arith, ground arith), tt)

update-AllReady_example : AllReady (update world (Update.message 9 "3") bot).states
update-AllReady_example = update-AllReady world (Update.message 9 "3") bot half_order-AllReady

continue_state-IsNearer_example :
    let d = Dialogue.order OrderStep.daily_gib half_order in
    IsNearer d (state_of 9 (continue_state world 9 "3" d bot).1.states)
    × (answers_left d ≤ 9)
    × (str_eq "3" "/cancel" ≡ true → state_of 9 (continue_state world 9 "3" d bot).1.states ≡ none)
unfolding state_of
continue_state-IsNearer_example =
    continue_state-IsNearer world 9 "3" (Dialogue.order OrderStep.daily_gib half_order) bot refl

-- the number is taken, and the note is asked for
continue_state_run :
    state_of 9
      (continue_state world 9 "3" (Dialogue.order OrderStep.daily_gib half_order) bot).1.states
    ≡ some (Dialogue.order OrderStep.note (record half_order { daily_gib = some 3 }))
unfolding state_of continue_state whole number
continue_state_run = refl

abbrev full_quote : QuoteData
full_quote = record {
  order_id = 40;
  amount_irr = some 60000;
  credit_limit_irr = some 0;
  price_per_gib_irr = some 1000;
  instructions = some "card";
}

collected_quote-is_valid_example :
    (form : OrderQuoteIn) × (collected_quote full_quote (some 0) ≡ ok form)
    × (form.pg_admin_id ≡ some 0)
    × (quote_is_valid form ≡ (leb form.amount_irr 10_000_000_000_000 && is_account_id (some 0)))
collected_quote-is_valid_example =
    collected_quote-is_valid full_quote (some 0) (ground arith, tt, ground arith, ground arith)

abbrev attach : OrderApproveIn
attach = record { pg_admin_id = none; admin_username = none }

env-IsQuery : IsQuery env
env-IsQuery = record { nothing = refl; only = λ m. refl }

-- the reseller of chat 8 has one active membership
one_membership : HasOneMembership 8 db
unfolding active_actor active_member
one_membership a known = ground arith

reviewer_order_action-as_web_example :
    reviewer_order_action env 99 8 40 false "no payment" attach db
    ≡ refusal (web_decision env 99 8 40 false "no payment" attach db)
reviewer_order_action-as_web_example =
    reviewer_order_action-as_web env env-IsQuery 8 db one_membership 99 40 false "no payment" attach

abbrev shelf : PlanCategoryIn
shelf = record { name = "monthly"; description = "" }

abbrev new_plan : PlanIn
new_plan = record {
  panel_id = 20;
  category_id = none;
  name = "yearly";
  description = "";
  price_per_gib_irr = 900;
  daily_gib = 2;
  duration_days = 365;
  user_count = 5;
  credit_limit_irr = 0;
  payment_instructions = "card";
}

catalog-as_web_example :
    (create_shelf env 8 shelf db ≡ refusal (web_create_category env 8 shelf db))
    × (save_plan env 8 new_plan db ≡ refusal (web_create_plan env 8 new_plan db))
unfolding category_is_valid plan_is_valid
catalog-as_web_example = catalog-as_web env env-IsQuery 8 db one_membership shelf new_plan refl refl

abbrev quoted_db : Db
quoted_db = db_with OrderStatus.quoted

customer_order_action-as_web_example :
    forget (customer_order_action 9 40 OrderStatus.confirmed quoted_db)
    ≡ refusal (customer_step env 9 40 OrderStatus.confirmed quoted_db)
unfolding order_permission
customer_order_action-as_web_example =
    customer_order_action-as_web env 9 40 OrderStatus.confirmed quoted_db refl

-- the reseller releases the credit that its customer has asked for
perform-IsSound_example : IsSound (perform world 8 (BotCall.funding 60 true) db).books
perform-IsSound_example = perform-IsSound world 8 (BotCall.funding 60 true) db no_books-IsSound
