-- ===== src/Orders/Customer.antt =====
-- The steps of an order that its requester takes (web_api.py: owned_order,
-- advance_customer_order, confirm_order, declare_payment, cancel_order).
use pasarguard_control_plane.Base.{
  ℕ, String, not, some, List, [], ◌∷◌, ◌==◌, http, Action, pure, gets, lift, or_raise, raise_if,
  ◌>>=◌, ◌>>◌,
}
use pasarguard_control_plane.Rbac.{Permission}
use pasarguard_control_plane.Store.{Db, Env, audit, request}
use pasarguard_control_plane.Store.Rows.{OrderStatus, PanelOrder, Detail}
use pasarguard_control_plane.Identity.{order_permission, find_actor}
use pasarguard_control_plane.Orders.{require_transition, locked_order, put_order}

-- an order of the caller's own account, or 403
unfoldable pub owned_order : ℕ → ℕ → OrderStatus → Action Db PanelOrder
unfolding find_actor
owned_order telegram_id order_id to = do
  order ← locked_order order_id to
  actor ← gets (λ d. find_actor telegram_id d.actors) >>= λ a. or_raise a (http 403)
  raise_if (not (order.actor_id == actor.id)) (http 403)
  pure order

-- `CUSTOMER_TRANSITIONS`
abbrev pub customer_transition : OrderStatus → String
customer_transition OrderStatus.confirmed = "panel_order.confirm"
customer_transition OrderStatus.payment_declared = "panel_order.payment_declared"
customer_transition _ = "panel_order.cancel"

abbrev pub declared_amount : OrderStatus → ℕ → List (String × Detail)
declared_amount OrderStatus.payment_declared amount = ("amount_irr", Detail.num amount) ∷ []
declared_amount _ amount = []

unfoldable pub advance_customer_order : PanelOrder → OrderStatus → Action Db PanelOrder
advance_customer_order order to =
    let moved = record order { status = to } in
    do
      lift (require_transition order to)
      put_order moved
      audit (customer_transition to) "panel_order" (some order.id) (some order.actor_id)
          order.organization_id (declared_amount to order.amount_irr)
      pure moved

-- the body that the three endpoints share
unfoldable pub customer_step : Env → ℕ → ℕ → OrderStatus → Action Db PanelOrder
unfolding owned_order advance_customer_order
customer_step env telegram_id order_id to = request (do
  order_permission env telegram_id Permission.order_panel
  order ← owned_order telegram_id order_id to
  advance_customer_order order to)

unfoldable pub confirm_order : Env → ℕ → ℕ → Action Db PanelOrder
unfolding customer_step
confirm_order env telegram_id order_id =
    customer_step env telegram_id order_id OrderStatus.confirmed

unfoldable pub declare_payment : Env → ℕ → ℕ → Action Db PanelOrder
unfolding customer_step
declare_payment env telegram_id order_id =
    customer_step env telegram_id order_id OrderStatus.payment_declared

unfoldable pub cancel_order : Env → ℕ → ℕ → Action Db PanelOrder
unfolding customer_step
cancel_order env telegram_id order_id = customer_step env telegram_id order_id OrderStatus.cancelled
