-- ===== src/Chat/Pages.antt =====
-- The rows that a page of the bot shows, as the buttons under it
-- (src/control_plane/telegram_consumer.py: server_list, node_list, finance_menu, funding_requests,
-- approval_requests, order_panels). Rows stand in the order of the tables, where the source sorts
-- them by name.
use pasarguard_control_plane.Base.{
  ℕ, String, Bool, true, false, not, ◌&&◌, some, none, List, [], ◌∷◌, ◌++◌, map, take, where_rows,
  if◌then◌else◌, Action, pure, gets, ◌>>=◌,
}
use mathlib.Core.List.{reverse}
use pasarguard_control_plane.Rbac.{Permission, may}
use pasarguard_control_plane.Tenancy.{get_org}
use pasarguard_control_plane.Store.{Db, Env}
use pasarguard_control_plane.Store.Rows.{OrderStatus, Panel, FundingRequest, ApprovalRequest}
use pasarguard_control_plane.Identity.{owns_panel}
use pasarguard_control_plane.Orders.Lists.{OrderRow, PlanRow, on_sale, saleable_plan_rows}
use pasarguard_control_plane.Servers.{Upstream}
use pasarguard_control_plane.Funding.{is_pending, parent_is}
use pasarguard_control_plane.Approvals
use pasarguard_control_plane.Chat.Menus.{Section, section_name}
use pasarguard_control_plane.Chat.Callbacks.{Callback}
use pasarguard_control_plane.Chat.Context.{require_context, permitted}
use pasarguard_control_plane.Chat.Desk.{bot_panel, run_panel_operation}
use pasarguard_control_plane.Chat.Deals.{when, OrderAction, OrderPage, queue_status}

abbrev pub back_to : Section → List (List Callback)
back_to s = (Callback.section (section_name s) ∷ []) ∷ []

abbrev pub to_menu : List (List Callback)
to_menu = (Callback.section "menu" ∷ []) ∷ []

abbrev sale_buttons : List Panel → List (List Callback)
sale_buttons [] = []
sale_buttons (p ∷ ps) =
    (Callback.nodes p.id ∷ []) ∷ (Callback.sale p.id (not p.saleable) ∷ []) ∷ sale_buttons ps

-- a page without a server has only a button of the web app
abbrev server_rows : List Panel → List (List Callback)
server_rows [] = []
server_rows (p ∷ ps) = sale_buttons (p ∷ ps) ++ to_menu

-- The first twenty servers of the organization. The button that leads to the web app is left out.
unfoldable pub server_list : Env → ℕ → Action Db (List (List Callback))
unfolding require_context owns_panel
server_list env chat = do
  ctx ← require_context env chat
  gets (λ d.
      server_rows (take 20 (where_rows (λ p. owns_panel p.id ctx.organization.id d) d.panels)))

-- the buttons of a node, by its id and whether it is on
abbrev node_buttons : ℕ → List (String × Bool) → List (List Callback)
node_buttons panel [] = []
node_buttons panel ((id, on) ∷ nodes) =
    (Callback.node panel id "reconnect"
      ∷ Callback.node panel id (if on then "disable" else "enable")
      ∷ [])
    ∷ (Callback.node panel id "reset" ∷ Callback.node panel id "status" ∷ [])
    ∷ node_buttons panel nodes

-- what the server says of its nodes; the call is audited like any other
unfoldable pub node_list :
    Env → (Panel → Upstream (List (String × Bool))) → ℕ → ℕ → Action Db (List (List Callback))
unfolding bot_panel run_panel_operation
node_list env nodes chat panel_id = do
  found ← bot_panel env chat panel_id
  rows ←
      run_panel_operation found.0 found.1 ("panel.nodes.read", "panel.nodes.read.failed") nodes []
  pure (node_buttons panel_id (take 20 rows) ++ back_to Section.servers)

unfoldable pub finance_menu : Env → ℕ → Action Db (List (List Callback))
unfolding require_context
finance_menu env chat = do
  ctx ← require_context env chat
  pure (
      when (may ctx.role Permission.view_finance) (back_to Section.transactions)
      ++ (when (may ctx.role Permission.decide_funding) (back_to Section.funding)
          ++ (when (may ctx.role Permission.request_funding) (back_to Section.credit) ++ to_menu)))

-- the request of a direct child of an organization
abbrev pub is_childs : ℕ → Db → FundingRequest → Bool
is_childs organization d r = elim (get_org r.organization_id d.tenants.organizations) [
  | none ↦ false
  | some o ↦ parent_is o.parent_id organization
]

-- the oldest twenty that wait for this branch; new requests stand first in the table
unfoldable pub funding_rows : ℕ → Db → List FundingRequest
funding_rows organization d = take 20 (
    where_rows (λ r. is_pending r.status && is_childs organization d r)
      (reverse d.funding_requests))

unfoldable pub funding_requests : Env → ℕ → Action Db (List FundingRequest)
unfolding permitted funding_rows
funding_requests env chat = do
  ctx ← permitted env chat Permission.decide_funding
  gets (funding_rows ctx.organization.id)

abbrev pub funding_buttons : FundingRequest → List Callback
funding_buttons r = Callback.funding true r.id ∷ Callback.funding false r.id ∷ []

unfoldable pub approval_requests : Env → ℕ → Action Db (List ApprovalRequest)
unfolding permitted
approval_requests env chat = do
  ctx ← permitted env chat Permission.decide_adjustment
  gets (λ d. take 20 (where_rows (λ a. Approvals.is_pending a.status) (reverse d.approvals)))

abbrev pub approval_buttons : ApprovalRequest → List Callback
approval_buttons a = Callback.approval a.id true ∷ Callback.approval a.id false ∷ []

-- published plans first, then the servers that are on sale
unfoldable pub order_panels : Db → List (List Callback)
unfolding saleable_plan_rows
order_panels d = offers (saleable_plan_rows d) (where_rows on_sale d.panels)
  where
    offers : List PlanRow → List Panel → List (List Callback)
    offers [] [] = to_menu
    offers rows panels =
        map (λ r. Callback.order_plan r.plan.id ∷ []) (take 12 rows)
        ++ (map (λ p. Callback.order_server p.id ∷ []) (take 12 panels)
            ++ (Callback.section (section_name Section.my_orders) ∷ Callback.section "menu" ∷ [])
              ∷ [])

-- what a reviewer may do at once, by the status of the queue
abbrev queue_extra : OrderStatus → ℕ → List Callback
queue_extra OrderStatus.pending id = Callback.order id "quote" ∷ []
queue_extra OrderStatus.payment_declared id = Callback.order id "ok" ∷ []
queue_extra _ id = []

-- under the queue: its orders, the filters and the menu
unfoldable pub queue_buttons : String → List OrderRow → List (List Callback)
unfolding queue_status
queue_buttons status rows =
    map (λ r. Callback.order r.order.id "view" ∷ queue_extra (queue_status status) r.order.id) rows
    ++ (Callback.queue "payment_declared" ∷ [])
      ∷ (Callback.queue "pending" ∷ Callback.queue "quoted" ∷ [])
      ∷ to_menu

-- under the own orders
unfoldable pub own_order_buttons : List OrderRow → List (List Callback)
own_order_buttons rows =
    map (λ r. Callback.order r.order.id "view" ∷ []) rows
    ++ (Callback.section (section_name Section.new_order) ∷ Callback.section "menu" ∷ []) ∷ []

-- the reviewer's two buttons share a row
abbrev action_rows : ℕ → List OrderAction → List (List Callback)
action_rows id [] = []
action_rows id (OrderAction.confirm ∷ rest) =
    (Callback.order id "confirm" ∷ []) ∷ action_rows id rest
action_rows id (OrderAction.pay ∷ rest) = (Callback.order id "pay" ∷ []) ∷ action_rows id rest
action_rows id (OrderAction.cancel ∷ rest) = (Callback.order id "cancel" ∷ []) ∷ action_rows id rest
action_rows id (OrderAction.quote ∷ rest) =
    (Callback.order id "quote" ∷ Callback.order id "no" ∷ []) ∷ action_rows id rest
action_rows id (OrderAction.ok ∷ rest) =
    (Callback.order id "ok" ∷ Callback.order id "no" ∷ []) ∷ action_rows id rest
action_rows id (OrderAction.no ∷ rest) = action_rows id rest

-- under one order
unfoldable pub page_buttons : OrderPage → List (List Callback)
page_buttons page =
    action_rows page.row.order.id page.buttons
    ++ back_to (if page.back_to_queue then Section.orders else Section.my_orders)
