-- ===== src/Orders.antt =====
-- The customer funnel of src/control_plane/web_api.py: an order from its first touch to a paid
-- account. Handlers are the bodies behind the identity; `request` of the store ends them.
pub mod Customer
pub mod Names
pub mod Lists
pub mod Shown
pub mod Seller
pub mod Reads
pub mod Moves
pub mod Approve
pub mod Closing
pub mod Create
pub mod Flow
pub mod Rows
pub mod Money
use pasarguard_control_plane.Base.{
  take, ℕ, zero, suc, ◌+◌, String, str_eq, Bool, true, false, not, ◌&&◌, ◌||◌, Option, some, none,
  List, [], ◌∷◌, ◌++◌, ◌==◌, if◌then◌else◌, find, any, update_where, is_some, get_or, Error, http,
  Result, ok, err, Action, pure, raise, gets, lift, or_raise, raise_if, modify, ◌>>=◌, ◌>>◌, ℤ,
}
use pasarguard_control_plane.Rbac.{Permission}
use pasarguard_control_plane.Tenancy.{
  Organization, OrgStatus, Tenants, get_org, assert_depth_allowed, add_child,
}
use pasarguard_control_plane.Ledger.{account, balance, transfer}
use pasarguard_control_plane.Ledger.Rows.{Owner, Key, Kind, Books}
use pasarguard_control_plane.Outbox.Rows.{Topic, Payload}
use pasarguard_control_plane.Store.{Db, Env, uid, audit, on_books, on_outbox, request}
use pasarguard_control_plane.Store.Rows.{
  Status, is_active, Panel, PlanCategory, Plan, amount_irr, Binding, Membership, OrderStatus,
  PanelOrder, Detail,
}
use pasarguard_control_plane.Identity.{
  Identity, Caller, manager, order_permission, find_actor, create_requester, owns_panel,
}

abbrev pub status_index : OrderStatus → ℕ
status_index OrderStatus.pending = 0
status_index OrderStatus.quoted = 1
status_index OrderStatus.confirmed = 2
status_index OrderStatus.payment_declared = 3
status_index OrderStatus.approved = 4
status_index OrderStatus.rejected = 5
status_index OrderStatus.cancelled = 6

-- `ORDER_FLOW`
abbrev pub order_flow : OrderStatus → List OrderStatus
order_flow OrderStatus.pending =
    OrderStatus.quoted ∷ OrderStatus.rejected ∷ OrderStatus.cancelled ∷ []
order_flow OrderStatus.quoted =
    OrderStatus.confirmed ∷ OrderStatus.rejected ∷ OrderStatus.cancelled ∷ []
order_flow OrderStatus.confirmed =
    OrderStatus.payment_declared ∷ OrderStatus.rejected ∷ OrderStatus.cancelled ∷ []
order_flow OrderStatus.payment_declared = OrderStatus.approved ∷ OrderStatus.rejected ∷ []
order_flow _ = []

abbrev pub may_become : OrderStatus → OrderStatus → Bool
may_become from to = any (λ s. status_index s == status_index to) (order_flow from)

unfoldable pub require_transition : PanelOrder → OrderStatus → Result (Unit {0})
require_transition order to = if may_become order.status to then ok tt else err (http 409)

-- the order row under its lock, if it may become `to`
unfoldable pub locked_order : ℕ → OrderStatus → Action Db PanelOrder
unfolding require_transition
locked_order order_id to = do
  order ← gets (λ d. find (λ o. o.id == order_id) d.orders) >>= λ o. or_raise o (http 404)
  lift (require_transition order to)
  pure order

-- the row of an order replaced
unfoldable pub put_row : PanelOrder → List PanelOrder → List PanelOrder
put_row order [] = []
put_row order (o ∷ rows) =
    let rest = put_row order rows in if o.id == order.id then order ∷ rows else o ∷ rest

-- the order as the session has changed it
unfoldable pub put_order : PanelOrder → Action Db (Unit {0})
unfolding put_row
put_order order d = (ok tt, record d { orders = put_row order d.orders })

-- The plan of an order, if it is on sale on that server: active, on an active shelf of its seller.
unfoldable pub on_open_shelf : Plan → Db → Bool
on_open_shelf plan d = elim plan.category_id [
  | none ↦ true
  | some c ↦ elim (find (λ x. x.id == c) d.categories) [
    | none ↦ false
    | some shelf ↦ is_active shelf.status && shelf.organization_id == plan.organization_id
  ]
]

unfoldable pub priced_plan : Panel → Option ℕ → Action Db (Option Plan)
unfolding on_open_shelf
priced_plan panel none d = (ok none, d)
priced_plan panel (some plan_id) d = elim (find (λ p. p.id == plan_id) d.plans) [
  | none ↦ (err (http 422), d)
  | some plan ↦ (
    if is_active plan.status && plan.panel_id == panel.id && on_open_shelf plan d
        then ok (some plan)
        else err (http 422),
    d,
  )
]

pub record OrderIn : Type 0 where
  pub panel_id : ℕ
  pub plan_id : Option ℕ
  pub business_name : String
  pub user_count : ℕ
  pub daily_gib : ℕ
  pub note : String

-- the row of a request that the seller has to price
unfoldable pub blank_order : ℕ → ℕ → ℕ → String → OrderIn → PanelOrder
blank_order id actor panel slug x = record {
  id = id;
  actor_id = actor;
  panel_id = panel;
  plan_id = none;
  business_name = x.business_name;
  slug = slug;
  user_count = x.user_count;
  daily_gib = x.daily_gib;
  note = x.note;
  status = OrderStatus.pending;
  credit_limit_irr = 0;
  price_per_gib_irr = 0;
  amount_irr = 0;
  payment_instructions = "";
  admin_username = "";
  pg_admin_id = none;
  organization_id = none;
  decided_by = none;
  decided_at = none;
  rejection_reason = "";
}

-- with a plan, the catalog is the only source of the terms
unfoldable pub apply_plan : Option Plan → PanelOrder → PanelOrder
unfolding amount_irr
apply_plan none order = order
apply_plan (some plan) order = record order {
  plan_id = some plan.id;
  user_count = plan.user_count;
  daily_gib = plan.daily_gib;
  price_per_gib_irr = plan.price_per_gib_irr;
  amount_irr = amount_irr plan;
  credit_limit_irr = if plan.credit_limit_irr == 0 then amount_irr plan else plan.credit_limit_irr;
  payment_instructions = plan.payment_instructions;
  status = OrderStatus.quoted;
}

-- A server that is on sale, or 422.
unfoldable pub saleable_panel : ℕ → Action Db Panel
saleable_panel panel_id d = elim (find (λ p. p.id == panel_id) d.panels) [
  | none ↦ (err (http 422), d)
  | some p ↦ (if is_active p.status && p.saleable then ok p else err (http 422), d)
]

-- `unique_order_slug` draws a random slug that is free in both tables; here the draw is an argument.
unfoldable pub slug_is_free : String → Db → Bool
slug_is_free slug d =
    not (any (λ o. str_eq o.slug slug) d.orders)
    && not (any (λ o. str_eq o.slug slug) d.tenants.organizations)

unfoldable pub unique_order_slug : List String → Action Db String
unfolding slug_is_free
unique_order_slug [] d = (err (http 500), d)
unique_order_slug (slug ∷ draws) d =
    let rest = unique_order_slug draws d in if slug_is_free slug d then (ok slug, d) else rest

abbrev detail_of : Option ℕ → Detail
detail_of none = Detail.null
detail_of (some n) = Detail.num n

-- An order without a plan has no amount before its flush, which comes after the audit.
abbrev pub order_details : String → Panel → PanelOrder → List (String × Detail)
order_details via panel order =
    ("panel_id", Detail.num panel.id)
    ∷ ("slug", Detail.text order.slug)
    ∷ ("user_count", Detail.num order.user_count)
    ∷ ("daily_gib", Detail.num order.daily_gib)
    ∷ ("via", Detail.text via)
    ∷ ("plan_id", detail_of order.plan_id)
    ∷ (
      "amount_irr",
      elim order.plan_id [ none ↦ Detail.null | some _ ↦ Detail.num order.amount_irr ],
    )
    ∷ []

unfoldable pub create_panel_order :
    ℕ → String → String → List String → OrderIn → Action Db PanelOrder
unfolding unique_order_slug saleable_panel priced_plan apply_plan blank_order
create_panel_order telegram_id display_name via draws x = do
  panel ← saleable_panel x.panel_id
  plan ← priced_plan panel x.plan_id
  actor ←
      create_requester telegram_id
        (if str_eq x.business_name "" then display_name else x.business_name)
  slug ← unique_order_slug (take 20 draws)
  id ← uid
  let order = apply_plan plan (blank_order id actor.id panel.id slug x)
  modify (λ d. record d { orders = d.orders ++ order ∷ [] })
  audit "panel_order.create" "panel_order" none (some actor.id) none (order_details via panel order)
  pure order

-- the endpoint of the web app
unfoldable pub create_order : Env → Identity → List String → OrderIn → Action Db PanelOrder
create_order env identity draws x = request (do
  order_permission env identity.user_id Permission.order_panel
  create_panel_order identity.user_id identity.first_name "webapp" draws x)
