-- ===== src/Chat/Deals.antt =====
-- The order funnel as the bot calls it (src/control_plane/telegram_consumer.py:
-- customer_order_rows, place_order, order_detail, order_buttons, order_queue, CUSTOMER_ACTIONS,
-- customer_order_action, reviewer_order_action, order_needs_admin, apply_quote,
-- order_owner_telegram_id, staff_chats, order_reviewer_chats, pick_plan).
use pasarguard_control_plane.Base.{
  ℕ, String, str_eq, Bool, true, false, not, ◌&&◌, ◌||◌, Option, some, none, List, [], ◌∷◌, ◌++◌,
  ◌==◌, if◌then◌else◌, find, any, map, ltb, leb, permission_error, validation_error, Action, pure,
  gets, or_raise, raise_if, ◌>>=◌, ◌>>◌,
}
use Prim.Native.String.{count}
use pasarguard_control_plane.Rbac.{Permission, may}
use pasarguard_control_plane.Store.{Db, Env, request}
use pasarguard_control_plane.Store.Rows.{OrderStatus, PanelOrder, Actor, Membership, is_active}
use pasarguard_control_plane.Identity.{find_actor, owns_panel}
use pasarguard_control_plane.Orders.{OrderIn, status_index, locked_order, create_panel_order}
use pasarguard_control_plane.Orders.Customer.{advance_customer_order}
use pasarguard_control_plane.Orders.Seller.{
  OrderQuoteIn, OrderApproveIn, quote_panel_order, approve_panel_order, reject_panel_order,
}
use pasarguard_control_plane.Orders.Lists.{
  OrderRow, PlanRow, order_row, saleable_plan_rows, orders_of, queued, status_named,
}
use pasarguard_control_plane.Chat.Context.{Context, context, permitted, as_refusal}

unfoldable pub customer_order_rows : ℕ → Db → List OrderRow
unfolding find_actor orders_of
customer_order_rows chat d = elim (find_actor chat d.actors) [
  | none ↦ []
  | some a ↦ orders_of 8 a.id d
]

-- a plan that the customer may buy right now
unfoldable pub pick_plan : ℕ → Db → Option PlanRow
unfolding saleable_plan_rows
pick_plan plan_id d = find (λ r. r.plan.id == plan_id) (saleable_plan_rows d)

unfoldable pub place_order : ℕ → List String → OrderIn → Action Db PanelOrder
place_order chat draws x =
    request (as_refusal (create_panel_order chat x.business_name "telegram" draws x))

-- what a button under an order does, by the last part of its callback data
pub data OrderAction : Type 0 where
  confirm pay cancel quote no ok : OrderAction

abbrev pub when : {A : Type 0} → Bool → List A → List A
when true xs = xs
when false xs = []

abbrev pub is_status : OrderStatus → OrderStatus → Bool
is_status a b = status_index a == status_index b

-- the buttons that change the order; each page has one more that leads back
unfoldable pub order_buttons : OrderStatus → Bool → Bool → List OrderAction
order_buttons status owner reviewer =
    when (owner && is_status status OrderStatus.quoted) (OrderAction.confirm ∷ [])
    ++ (when (owner && is_status status OrderStatus.confirmed) (OrderAction.pay ∷ [])
        ++ (when
              (owner
                && (is_status status OrderStatus.pending
                    || is_status status OrderStatus.quoted
                    || is_status status OrderStatus.confirmed))
              (OrderAction.cancel ∷ [])
            ++ (when (reviewer && is_status status OrderStatus.pending)
                  (OrderAction.quote ∷ OrderAction.no ∷ [])
                ++ when (reviewer && is_status status OrderStatus.payment_declared)
                    (OrderAction.ok ∷ OrderAction.no ∷ []))))

-- the chat is the requester's
unfoldable pub is_owner : ℕ → PanelOrder → Db → Bool
is_owner chat order d = any (λ a. a.id == order.actor_id && a.telegram_id == chat) d.actors

-- the chat decides on orders for the owner of the server
unfoldable pub is_reviewer : Env → ℕ → PanelOrder → Db → Bool
unfolding context owns_panel
is_reviewer env chat order d = elim (context env chat d) [
  | none ↦ false
  | some c ↦ may c.role Permission.decide_orders && owns_panel order.panel_id c.organization.id d
]

-- The page of an order: its row, the requester's Telegram id for a reviewer, and the buttons.
pub record OrderPage : Type 0 where
  pub row : OrderRow
  pub requester : Option ℕ
  pub buttons : List OrderAction
  -- the button that leads back goes to the reviewer's queue, else to the own orders
  pub back_to_queue : Bool

abbrev pub telegram_of : Option Actor → Option ℕ
telegram_of none = none
telegram_of (some a) = some a.telegram_id

abbrev pub actor_at : ℕ → Db → Option Actor
actor_at id d = find (λ a. a.id == id) d.actors

unfoldable pub order_detail : Env → ℕ → ℕ → Action Db OrderPage
unfolding is_owner is_reviewer order_buttons
order_detail env chat order_id = do
  order ← gets (λ d. find (λ o. o.id == order_id) d.orders) >>= λ o. or_raise o permission_error
  owner ← gets (is_owner chat order)
  reviewer ← gets (is_reviewer env chat order)
  raise_if (not owner && not reviewer) permission_error
  gets (λ d. record {
    row = order_row d order;
    requester = if reviewer then telegram_of (actor_at order.actor_id d) else none;
    buttons = order_buttons order.status owner reviewer;
    back_to_queue = not (owner && not reviewer);
  })

-- a filter of the queue that is not one of its four is read as the first
unfoldable pub queue_status : String → OrderStatus
unfolding status_named
queue_status name =
    if str_eq name "quoted"
    then OrderStatus.quoted
    else if str_eq name "confirmed"
    then OrderStatus.confirmed
    else if str_eq name "payment_declared"
    then OrderStatus.payment_declared
    else OrderStatus.pending

unfoldable pub order_queue : Env → ℕ → String → Action Db (List OrderRow)
unfolding permitted queue_status queued order_row
order_queue env chat status = do
  ctx ← permitted env chat Permission.decide_orders
  gets (λ d. map (order_row d) (queued 20 (queue_status status) ctx.organization.id d))

-- `CUSTOMER_ACTIONS`
unfoldable pub customer_action : String → Option OrderStatus
customer_action name =
    if str_eq name "confirm"
    then some OrderStatus.confirmed
    else if str_eq name "pay"
    then some OrderStatus.payment_declared
    else if str_eq name "cancel"
    then some OrderStatus.cancelled
    else none

-- the first organization that owns a server
unfoldable pub seller_of : ℕ → Db → Option ℕ
seller_of panel d = elim (find (λ l. l.panel_id == panel) d.panel_owners) [
  | none ↦ none
  | some l ↦ some l.organization_id
]

-- the order as it has moved, and the seller to notify
unfoldable pub customer_order_action : ℕ → ℕ → OrderStatus → Action Db (PanelOrder × Option ℕ)
unfolding find_actor seller_of advance_customer_order
customer_order_action chat order_id to = request (do
  order ← as_refusal (locked_order order_id to)
  actor ← gets (λ d. find_actor chat d.actors) >>= λ a. or_raise a permission_error
  raise_if (not (order.actor_id == actor.id)) permission_error
  seller ← gets (seller_of order.panel_id)
  moved ← advance_customer_order order to
  pure (moved, seller))

-- A payment confirmed or an order refused, for the reviewer. Without an answer to the question for
-- the panel account the source hands over None, which is the empty form.
unfoldable pub reviewer_order_action :
    Env → ℕ → ℕ → ℕ → Bool → String → OrderApproveIn → Action Db PanelOrder
unfolding permitted
reviewer_order_action env now chat order_id accepts reason attach =
    request (do ctx ← permitted env chat Permission.decide_orders; as_refusal (decide ctx accepts))
  where
    decide : Context → Bool → Action Db PanelOrder
    decide ctx true = do
      order ← locked_order order_id OrderStatus.approved
      approve_panel_order env now order ctx.actor_id ctx.organization.id attach
    decide ctx false = do
      order ← locked_order order_id OrderStatus.rejected
      reject_panel_order now order ctx.actor_id ctx.organization.id reason

abbrev pub has_account : Option ℕ → Bool
has_account none = false
has_account (some n) = not (n == 0)

unfoldable pub order_needs_admin : ℕ → Db → Bool
order_needs_admin order_id d = elim (find (λ o. o.id == order_id) d.orders) [
  | none ↦ false
  | some o ↦ not (has_account o.pg_admin_id) && is_status o.status OrderStatus.payment_declared
]

abbrev pub is_account_id : Option ℕ → Bool
is_account_id none = true
is_account_id (some n) = ltb 0 n

-- the bounds of the web form OrderQuoteIn
unfoldable pub quote_is_valid : OrderQuoteIn → Bool
quote_is_valid x =
    (ltb 0 x.amount_irr && leb x.amount_irr 10_000_000_000_000)
    && ltb 0 x.price_per_gib_irr
    && (leb 3 (count x.payment_instructions) && leb (count x.payment_instructions) 2000)
    && is_account_id x.pg_admin_id

-- the form is built before the caller is known
unfoldable pub apply_quote : Env → ℕ → ℕ → OrderQuoteIn → Action Db PanelOrder
unfolding permitted quote_is_valid
apply_quote env chat order_id x = do
  raise_if (not (quote_is_valid x)) validation_error
  request (do
    ctx ← permitted env chat Permission.decide_orders
    as_refusal (do
      order ← locked_order order_id OrderStatus.quoted
      quote_panel_order order x ctx.actor_id ctx.organization.id))

unfoldable pub order_owner_telegram_id : ℕ → Db → Option ℕ
order_owner_telegram_id order_id d = elim (find (λ o. o.id == order_id) d.orders) [
  | none ↦ none
  | some o ↦ telegram_of (actor_at o.actor_id d)
]

abbrev pub is_named : List String → String → Bool
is_named names s = any (λ n. str_eq n s) names

-- the chats of an organization's active members that hold one of the roles
unfoldable pub member_chats : ℕ → List String → Db → List Membership → List ℕ
member_chats organization roles d [] = []
member_chats organization roles d (m ∷ ms) =
    let rest = member_chats organization roles d ms in
    if m.organization_id == organization && is_active m.status && is_named roles m.role
    then elim (actor_at m.actor_id d) [ none ↦ rest | some a ↦ a.telegram_id ∷ rest ]
    else rest

unfoldable pub staff_chats : Option ℕ → List String → Db → List ℕ
unfolding member_chats
staff_chats none roles d = []
staff_chats (some organization) roles d = member_chats organization roles d d.memberships

abbrev pub order_staff : List String
order_staff = "system_admin" ∷ "reseller_admin" ∷ []

abbrev pub money_staff : List String
money_staff = "system_admin" ∷ "reseller_admin" ∷ "finance" ∷ []

unfoldable pub order_reviewer_chats : ℕ → Db → List ℕ
unfolding staff_chats seller_of
order_reviewer_chats panel d = staff_chats (seller_of panel d) order_staff d
