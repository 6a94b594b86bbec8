-- ===== src/Orders/Lists.antt =====
-- What the funnel shows (src/control_plane/web_api.py: order_row, panel_saleable_rows, plan_row,
-- saleable_plan_rows, my_orders, review_panels, order_queue). The tables stand in the order of
-- their creation; how the database compares names is an argument.
use pasarguard_control_plane.Base.{
  ℕ, String, str_eq, Bool, true, false, ◌&&◌, Option, some, none, List, [], ◌∷◌, ◌==◌, ltb, find,
  any, map, where_rows, take, sort_by, http, Action, gets, or_raise, ◌>>=◌, ◌>>◌,
}
use mathlib.Core.List.{reverse}
use pasarguard_control_plane.Rbac.{Permission}
use pasarguard_control_plane.Store.{Db, Env}
use pasarguard_control_plane.Store.Rows.{
  is_active, Panel, PlanCategory, Plan, amount_irr, OrderStatus, PanelOrder,
}
use pasarguard_control_plane.Identity.{manager, order_permission, find_actor}
use pasarguard_control_plane.Orders.{status_index}

pub record OrderRow : Type 0 where
  pub order : PanelOrder
  pub panel_name : Option String
  pub plan_name : Option String
  pub duration_days : Option ℕ

unfoldable pub named_plan : Option ℕ → Db → Option Plan
named_plan none d = none
named_plan (some id) d = find (λ p. p.id == id) d.plans

abbrev pub and_then : {A B : Type 0} → Option A → (A → B) → Option B
and_then none f = none
and_then (some a) f = some (f a)

-- an order with the names that its ids stand for
unfoldable pub order_row : Db → PanelOrder → OrderRow
unfolding named_plan
order_row d order = record {
  order = order;
  panel_name = and_then (find (λ p. p.id == order.panel_id) d.panels) (λ p. p.name);
  plan_name = and_then (named_plan order.plan_id d) (λ p. p.name);
  duration_days = and_then (named_plan order.plan_id d) (λ p. p.duration_days);
}

abbrev pub on_sale : Panel → Bool
on_sale p = is_active p.status && p.saleable

unfoldable pub panel_saleable_rows : (String → String → Bool) → Db → List (ℕ × String)
panel_saleable_rows before d =
    map (λ p. (p.id, p.name)) (sort_by (λ p q. before p.name q.name) (where_rows on_sale d.panels))

pub record PlanRow : Type 0 where
  pub plan : Plan
  pub panel_name : Option String
  pub amount : ℕ

unfoldable pub plan_row : Plan → Option String → PlanRow
unfolding amount_irr
plan_row plan panel_name = record { plan = plan; panel_name = panel_name; amount = amount_irr plan }

-- on no shelf, or on an open one
abbrev pub shelf_is_open : Option ℕ → List PlanCategory → Bool
shelf_is_open none shelves = true
shelf_is_open (some c) shelves = any (λ x. x.id == c && is_active x.status) shelves

-- the server of a plan that a stranger may buy now
unfoldable pub shown_on : Db → Plan → Option Panel
shown_on d plan = find (λ p. p.id == plan.panel_id && on_sale p) d.panels

unfoldable pub plan_rows : Db → List Plan → List PlanRow
unfolding shown_on plan_row
plan_rows d [] = []
plan_rows d (plan ∷ plans) =
    let rest = plan_rows d plans in
    elim (shown_on d plan) [
      | none ↦ rest
      | some p ↦ elim (shelf_is_open plan.category_id d.categories) [
        | true ↦ plan_row plan (some p.name) ∷ rest
        | false ↦ rest
      ]
    ]

unfoldable pub saleable_plan_rows : Db → List PlanRow
unfolding plan_rows
saleable_plan_rows d = plan_rows d (
    sort_by (λ p q. ltb p.price_per_gib_irr q.price_per_gib_irr)
      (where_rows (λ p. is_active p.status) d.plans))

-- the newest orders of an account first
unfoldable pub orders_of : ℕ → ℕ → Db → List OrderRow
unfolding order_row
orders_of limit actor d =
    map (order_row d) (take limit (reverse (where_rows (λ o. o.actor_id == actor) d.orders)))

unfoldable pub my_orders : Env → ℕ → Action Db (List OrderRow)
unfolding orders_of find_actor
my_orders env telegram_id = do
  order_permission env telegram_id Permission.order_panel
  gets (λ d. elim (find_actor telegram_id d.actors) [ none ↦ [] | some a ↦ orders_of 50 a.id d ])

-- the servers that an organization owns
unfoldable pub review_panels : ℕ → Db → ℕ → Bool
review_panels organization d panel =
    any (λ l. l.panel_id == panel && l.organization_id == organization) d.panel_owners

unfoldable pub queued : ℕ → OrderStatus → ℕ → Db → List PanelOrder
unfolding review_panels
queued limit status organization d = take limit (
    where_rows
      (λ o. status_index o.status == status_index status && review_panels organization d o.panel_id)
      d.orders)

abbrev pub status_name : OrderStatus → String
status_name OrderStatus.pending = "pending"
status_name OrderStatus.quoted = "quoted"
status_name OrderStatus.confirmed = "confirmed"
status_name OrderStatus.payment_declared = "payment_declared"
status_name OrderStatus.approved = "approved"
status_name OrderStatus.rejected = "rejected"
status_name OrderStatus.cancelled = "cancelled"

-- `ORDER_STATES`
abbrev pub order_states : List OrderStatus
order_states =
    OrderStatus.pending ∷ OrderStatus.quoted ∷ OrderStatus.confirmed ∷ OrderStatus.payment_declared
    ∷ OrderStatus.approved ∷ OrderStatus.rejected ∷ OrderStatus.cancelled ∷ []

unfoldable pub status_named : String → Option OrderStatus
status_named name = find (λ s. str_eq (status_name s) name) order_states

unfoldable pub order_queue : Env → ℕ → String → Action Db (List OrderRow)
unfolding status_named queued order_row
order_queue env telegram_id status = do
  caller ← manager env telegram_id Permission.decide_orders
  s ← or_raise (status_named status) (http 422)
  gets (λ d. map (order_row d) (queued 100 s caller.organization.id d))
