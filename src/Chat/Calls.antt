-- ===== src/Chat/Calls.antt =====
-- The calls of the bot on the tables and the ledger under any sequence of them
-- (telegram_consumer.py).
use pasarguard_control_plane.Base.{
  ℕ, Bool, true, false, Option, some, none, pure, ◌>>=◌, String, List, find, Option-cases,
  Bool-cases, inl, inr, ◌==◌,
}
use pasarguard_control_plane.Ledger.Sound.{IsSound}
use pasarguard_control_plane.Store.{Db, Env}
use pasarguard_control_plane.Store.Rows.{
  Detail, OrderStatus, Panel, ApprovalRequest, FundingRequest,
}
use pasarguard_control_plane.Servers.{Upstream, record_answer, panel_operation}
use pasarguard_control_plane.Catalog.{PlanCategoryIn, PlanIn, Kind}
use pasarguard_control_plane.Funding.{pay_request, is_pending}
use pasarguard_control_plane.Orders.{OrderIn}
use pasarguard_control_plane.Orders.Seller.{OrderQuoteIn, OrderApproveIn}
use pasarguard_control_plane.Chat.Context.{Context, require_context}
use pasarguard_control_plane.Chat.Deals.{
  place_order, customer_order_action, reviewer_order_action, apply_quote,
}
use pasarguard_control_plane.Chat.Desk.{
  NodeCall, linked_panel, set_saleable, toggle_catalog, create_shelf, save_plan, bot_panel,
  run_panel_operation, node_action, catalog_ctx,
}
use pasarguard_control_plane.Chat.Money.{
  FundingReply, pay_if, settle_funding, record_funding, decide_funding, apply_if, end_approval,
  decide_approval, ResellerIn, create_reseller,
}
use pasarguard_control_plane.Chat.Forms.{add_request}
use pasarguard_control_plane.Chat.Pages.{node_list}
use pasarguard_control_plane.Chat.Digits.{Script}
use pasarguard_control_plane.Chat.State.{World}
use pasarguard_control_plane.Chat.Books.{Sound, sound_steps}
use pasarguard_control_plane.Chat.Balanced.{
  permitted-Sound, locked_order-Sound, reject_panel_order-Sound, approve_panel_order-Sound,
  quote_panel_order-Sound, advance_customer_order-Sound, create_requester-Sound,
  record_answer-Sound, apply_wallet_adjustment-Sound, put_approval-Sound,
  locked_pending_approval-Sound, create_panel_order-Sound, set_catalog_status-Sound,
  create_plan_category-Sound, create_catalog_plan-Sound, insert_child-Sound,
}

place_order-Sound :
    (chat : ℕ) (draws : List String) (x : OrderIn) → Sound (place_order chat draws x)
unfolding place_order
place_order-Sound chat draws x = search (create_panel_order-Sound, sound_steps)

customer_order_action-Sound :
    (chat id : ℕ) (to : OrderStatus) → Sound (customer_order_action chat id to)
unfolding customer_order_action
customer_order_action-Sound chat id to =
    search (locked_order-Sound, advance_customer_order-Sound, sound_steps) depth 16

reviewer_order_action-Sound :
    (env : Env) (now chat id : ℕ) (accepts : Bool) (reason : String) (x : OrderApproveIn)
    → Sound (reviewer_order_action env now chat id accepts reason x)
unfolding reviewer_order_action
reviewer_order_action-Sound env now chat id true reason x =
    search (permitted-Sound, locked_order-Sound, approve_panel_order-Sound, sound_steps) depth 16
reviewer_order_action-Sound env now chat id false reason x =
    search (permitted-Sound, locked_order-Sound, reject_panel_order-Sound, sound_steps) depth 16

apply_quote-Sound : (env : Env) (chat id : ℕ) (x : OrderQuoteIn) → Sound (apply_quote env chat id x)
unfolding apply_quote
apply_quote-Sound env chat id x =
    search (permitted-Sound, locked_order-Sound, quote_panel_order-Sound, sound_steps) depth 16

create_shelf-Sound : (env : Env) (chat : ℕ) (x : PlanCategoryIn) → Sound (create_shelf env chat x)
unfolding create_shelf catalog_ctx
create_shelf-Sound env chat x =
    search (permitted-Sound, create_plan_category-Sound, sound_steps) depth 12

save_plan-Sound : (env : Env) (chat : ℕ) (x : PlanIn) → Sound (save_plan env chat x)
unfolding save_plan catalog_ctx
save_plan-Sound env chat x =
    search (permitted-Sound, create_catalog_plan-Sound, sound_steps) depth 12

toggle_catalog-Sound :
    (env : Env) (chat : ℕ) (kind : Kind) (id : ℕ) → Sound (toggle_catalog env chat kind id)
unfolding toggle_catalog catalog_ctx
toggle_catalog-Sound env chat kind id =
    search (permitted-Sound, set_catalog_status-Sound, sound_steps) depth 16

linked_panel-Sound : (id organization : ℕ) → Sound (linked_panel id organization)
unfolding linked_panel
linked_panel-Sound id organization = search sound_steps depth 12

set_saleable-Sound : (env : Env) (chat id : ℕ) (s : Bool) → Sound (set_saleable env chat id s)
unfolding set_saleable
set_saleable-Sound env chat id s =
    search (permitted-Sound, linked_panel-Sound, sound_steps) depth 16

pay_if-Sound : (approves : Bool) (actor : ℕ) (r : FundingRequest) → Sound (pay_if approves actor r)
unfolding pay_if pay_request
pay_if-Sound true actor r = search sound_steps depth 12
pay_if-Sound false actor r = search sound_steps

settle_funding-Sound :
    (now : ℕ) (c : Context) (r : FundingRequest) (approves : Bool)
    → Sound (settle_funding now c r approves)
unfolding settle_funding record_funding
settle_funding-Sound now c r approves = search (pay_if-Sound, sound_steps) depth 20

apply_if-Sound :
    (approves : Bool) (a : ApprovalRequest) (actor : ℕ) → Sound (apply_if approves a actor)
unfolding apply_if
apply_if-Sound true a actor = search (apply_wallet_adjustment-Sound, sound_steps) depth 8
apply_if-Sound false a actor = search sound_steps

decide_approval-Sound :
    (env : Env) (now chat id : ℕ) (approves : Bool)
    → Sound (decide_approval env now chat id approves)
unfolding decide_approval end_approval
decide_approval-Sound env now chat id approves =
    search
      (
        permitted-Sound, locked_pending_approval-Sound, apply_if-Sound, put_approval-Sound,
        sound_steps,
      )
      depth 20

add_request-Sound : (c : Context) (amount : ℕ) → Sound (add_request c amount)
unfolding add_request
add_request-Sound c amount = search sound_steps depth 12

-- a request that is there and waits is settled, any other is left alone
decide_funding-Sound :
    (env : Env) (now chat id : ℕ) (approves : Bool)
    → Sound (decide_funding env now chat id approves)
unfolding decide_funding
decide_funding-Sound env now chat id approves = search (permitted-Sound, found, sound_steps) depth 8
  where
    found :
        (c : Context)
        → Sound {A = FundingReply} (λ d. elim (find (λ r. r.id == id) d.funding_requests) [
          | none ↦ pure FundingReply.checked_before d
          | some r ↦ elim (is_pending r.status) [
            | true ↦ settle_funding now c r approves d
            | false ↦ pure FundingReply.checked_before d
          ]
        ])
    found c = record {
      run = λ d s. elim (Option-cases (find (λ r. r.id == id) d.funding_requests)) [
        | inl e ↦ rw e s
        | inr (r, e) ↦ elim (Bool-cases (is_pending r.status)) [
          | inl f ↦ rw (e, f) ((settle_funding-Sound now c r approves).run d s)
          | inr f ↦ rw (e, f) s
        ]
      ];
    }

create_reseller-Sound :
    (env : Env) (script : Script) (chat : ℕ) (x : ResellerIn)
    → Sound (create_reseller env script chat x)
unfolding create_reseller
create_reseller-Sound env script chat x =
    search (permitted-Sound, insert_child-Sound, create_requester-Sound, sound_steps) depth 24

node_action-Sound :
    (env : Env) (script : Script) (run : NodeCall → ℕ → Panel → Upstream String) (chat panel : ℕ)
    (node action : String)
    → Sound (node_action env script run chat panel node action)
unfolding node_action bot_panel require_context run_panel_operation panel_operation
node_action-Sound env script run chat panel node action =
    search (linked_panel-Sound, record_answer-Sound, sound_steps) depth 24

recorded-Sound :
    {A : Type 0} (p : Panel) (organization : ℕ) (action failed : String) (actor : Option ℕ)
    (metadata : List (String × Detail)) (u : Upstream A)
    → Sound (record_answer p organization action failed actor metadata u)
recorded-Sound p organization action failed = record_answer-Sound p organization (action, failed)

node_list-Sound :
    (env : Env) (nodes : Panel → Upstream (List (String × Bool))) (chat panel : ℕ)
    → Sound (node_list env nodes chat panel)
unfolding node_list bot_panel require_context run_panel_operation panel_operation
node_list-Sound env nodes chat panel =
    search (linked_panel-Sound, recorded-Sound, sound_steps) depth 24

-- the calls of the bot on the tables
pub data BotCall : Type 0 where
  place : OrderIn → BotCall
  step : ℕ → OrderStatus → BotCall
  review : ℕ → Bool → String → OrderApproveIn → BotCall
  quote : ℕ → OrderQuoteIn → BotCall
  shelf : PlanCategoryIn → BotCall
  plan : PlanIn → BotCall
  toggle : Kind → ℕ → BotCall
  sale : ℕ → Bool → BotCall
  nodes : ℕ → BotCall
  node : ℕ → String → String → BotCall
  funding : ℕ → Bool → BotCall
  approval : ℕ → Bool → BotCall
  reseller : ResellerIn → BotCall
  credit : ℕ → BotCall

-- what a call leaves of the tables
abbrev pub perform : World → ℕ → BotCall → Db → Db
perform w chat (BotCall.place x) d = (place_order chat w.draws x d).1
perform w chat (BotCall.step id to) d = (customer_order_action chat id to d).1
perform w chat (BotCall.review id accepts reason x) d =
    (reviewer_order_action w.env w.now chat id accepts reason x d).1
perform w chat (BotCall.quote id x) d = (apply_quote w.env chat id x d).1
perform w chat (BotCall.shelf x) d = (create_shelf w.env chat x d).1
perform w chat (BotCall.plan x) d = (save_plan w.env chat x d).1
perform w chat (BotCall.toggle kind id) d = (toggle_catalog w.env chat kind id d).1
perform w chat (BotCall.sale id s) d = (set_saleable w.env chat id s d).1
perform w chat (BotCall.nodes panel) d = (node_list w.env w.nodes chat panel d).1
perform w chat (BotCall.node panel id action) d =
    (node_action w.env w.script w.run chat panel id action d).1
perform w chat (BotCall.funding id approves) d = (decide_funding w.env w.now chat id approves d).1
perform w chat (BotCall.approval id approves) d = (decide_approval w.env w.now chat id approves d).1
perform w chat (BotCall.reseller x) d = (create_reseller w.env w.script chat x d).1
perform w chat (BotCall.credit amount) d =
    ((require_context w.env chat >>= λ c. add_request c amount) d).1

-- Whatever the bot does to the tables for a chat, be it an order placed, moved, priced or decided,
-- a plan, a server, a request for money or a correction decided, or a reseller made, keeps the
-- ledger sound: accounts are distinct, each balance is what its entries post, and all balances add
-- up to zero. This holds of a call that raises too.
pub perform-IsSound :
    (w : World) (chat : ℕ) (c : BotCall) (d : Db)
    → IsSound d.books
    → IsSound (perform w chat c d).books
unfolding require_context
perform-IsSound w chat (BotCall.place x) d s = (place_order-Sound chat w.draws x).run d s
perform-IsSound w chat (BotCall.step id to) d s = (customer_order_action-Sound chat id to).run d s
perform-IsSound w chat (BotCall.review id accepts reason x) d s =
    (reviewer_order_action-Sound w.env w.now chat id accepts reason x).run d s
perform-IsSound w chat (BotCall.quote id x) d s = (apply_quote-Sound w.env chat id x).run d s
perform-IsSound w chat (BotCall.shelf x) d s = (create_shelf-Sound w.env chat x).run d s
perform-IsSound w chat (BotCall.plan x) d s = (save_plan-Sound w.env chat x).run d s
perform-IsSound w chat (BotCall.toggle kind id) d s =
    (toggle_catalog-Sound w.env chat kind id).run d s
perform-IsSound w chat (BotCall.sale id saleable) d s =
    (set_saleable-Sound w.env chat id saleable).run d s
perform-IsSound w chat (BotCall.nodes panel) d s =
    (node_list-Sound w.env w.nodes chat panel).run d s
perform-IsSound w chat (BotCall.node panel id action) d s =
    (node_action-Sound w.env w.script w.run chat panel id action).run d s
perform-IsSound w chat (BotCall.funding id approves) d s =
    (decide_funding-Sound w.env w.now chat id approves).run d s
perform-IsSound w chat (BotCall.approval id approves) d s =
    (decide_approval-Sound w.env w.now chat id approves).run d s
perform-IsSound w chat (BotCall.reseller x) d s =
    (create_reseller-Sound w.env w.script chat x).run d s
perform-IsSound w chat (BotCall.credit amount) d s = (asked amount).run d s
  where
    asked : (n : ℕ) → Sound (require_context w.env chat >>= λ c. add_request c n)
    asked n = search (add_request-Sound, sound_steps) depth 10
