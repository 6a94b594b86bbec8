-- ===== src/Chat/Buttons.antt =====
-- The buttons under an order against the transitions that the core allows (telegram_consumer.py:
-- order_buttons; web_api.py: ORDER_FLOW).
use pasarguard_control_plane.Base.{ℕ, ◌≡◌, Bool, true, false, not, ◌&&◌, List, any, ◌==◌, arith}
use pasarguard_control_plane.Store.Rows.{OrderStatus}
use pasarguard_control_plane.Orders.{may_become}
use pasarguard_control_plane.Chat.Deals.{OrderAction, order_buttons}

abbrev action_index : OrderAction → ℕ
action_index OrderAction.confirm = 0
action_index OrderAction.pay = 1
action_index OrderAction.cancel = 2
action_index OrderAction.quote = 3
action_index OrderAction.no = 4
action_index OrderAction.ok = 5

abbrev pub offered : OrderAction → List OrderAction → Bool
offered a buttons = any (λ b. action_index b == action_index a) buttons

-- the status that a button leads to
abbrev pub leads_to : OrderAction → OrderStatus
leads_to OrderAction.confirm = OrderStatus.confirmed
leads_to OrderAction.pay = OrderStatus.payment_declared
leads_to OrderAction.cancel = OrderStatus.cancelled
leads_to OrderAction.quote = OrderStatus.quoted
leads_to OrderAction.no = OrderStatus.rejected
leads_to OrderAction.ok = OrderStatus.approved

-- whose button it is: the first of the two is the requester, the second the reviewer
abbrev pub is_theirs : OrderAction → Bool → Bool → Bool
is_theirs OrderAction.confirm owner reviewer = owner
is_theirs OrderAction.pay owner reviewer = owner
is_theirs OrderAction.cancel owner reviewer = owner
is_theirs _ owner reviewer = reviewer

-- between the quote and the payment a reviewer has no button, though the core would let it reject
abbrev pub is_waiting : OrderAction → OrderStatus → Bool
is_waiting OrderAction.no OrderStatus.quoted = true
is_waiting OrderAction.no OrderStatus.confirmed = true
is_waiting _ _ = false

-- A button is offered under an order exactly where the person at the chat may press it, the core
-- allows the transition that it leads to, and it is not the rejection of an order that waits for
-- its requester to confirm or to pay.
pub order_buttons-offered :
    (a : OrderAction) (status : OrderStatus) (owner reviewer : Bool)
    → offered a (order_buttons status owner reviewer)
      ≡ (is_theirs a owner reviewer && may_become status (leads_to a) && not (is_waiting a status))
unfolding order_buttons
order_buttons-offered OrderAction.confirm status owner reviewer = ground arith
order_buttons-offered OrderAction.pay status owner reviewer = ground arith
order_buttons-offered OrderAction.cancel status owner reviewer = ground arith
order_buttons-offered OrderAction.quote status owner reviewer = ground arith
order_buttons-offered OrderAction.no status owner reviewer = ground arith
order_buttons-offered OrderAction.ok status owner reviewer = ground arith
