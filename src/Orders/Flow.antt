-- ===== src/Orders/Flow.antt =====
-- The state machine of an order (web_api.py: ORDER_FLOW) over any sequence of requests.
use pasarguard_control_plane.Base.{
  ℕ, String, ◌≡◌, refl, ap, sym, ◌∙◌, inl, inr, Bool, true, false, Option, some, none, List, [],
  ◌∷◌, ◌==◌, arith, find-passes, ok, err, Result, Action, Post, Post-weaken,
}
use pasarguard_control_plane.Store.{Db, Env, request}
use pasarguard_control_plane.Store.Rows.{OrderStatus, PanelOrder}
use pasarguard_control_plane.Identity.{Identity}
use pasarguard_control_plane.Orders.{may_become, put_row, OrderIn, create_order}
use pasarguard_control_plane.Orders.Customer.{
  customer_step, confirm_order, declare_payment, cancel_order,
}
use pasarguard_control_plane.Orders.Seller.{
  OrderQuoteIn, OrderApproveIn, quoted_order, quote_order, rejected_order, reject_order,
  approved_order, approve_order,
}
use pasarguard_control_plane.Orders.Names.{attach_account}
use pasarguard_control_plane.Orders.Reads.{IsLocked}
use pasarguard_control_plane.Orders.Moves.{
  CustomerMoved, customer_step-moves, SellerMoved, quote_order-moves, reject_order-moves,
}
use pasarguard_control_plane.Orders.Create.{Created, create_order-Created}
use pasarguard_control_plane.Orders.Approve.{Approved, approve_order-opens}
use pasarguard_control_plane.Orders.Rows.{order_at, Steps, find_row-append, put_row-Steps}

-- the requests that touch orders
pub data Call : Type 0 where
  create : Identity → List String → OrderIn → Call
  confirm declare cancel : ℕ → ℕ → Call
  quote : ℕ → ℕ → OrderQuoteIn → Call
  reject : ℕ → ℕ → ℕ → String → Call
  approve : ℕ → ℕ → ℕ → OrderApproveIn → Call

abbrev pub handle : Env → Call → Action Db PanelOrder
handle env (Call.create identity draws x) = create_order env identity draws x
handle env (Call.confirm t o) = confirm_order env t o
handle env (Call.declare t o) = declare_payment env t o
handle env (Call.cancel t o) = cancel_order env t o
handle env (Call.quote t o x) = quote_order env t o x
handle env (Call.reject now t o reason) = reject_order env now t o reason
handle env (Call.approve now t o x) = approve_order env now t o x

-- a sequence of requests, each committed or rolled back before the next
abbrev pub handle_all : Env → List Call → Db → Db
handle_all env [] d = d
handle_all env (c ∷ calls) d = handle_all env calls (handle env c d).1

-- what a request does to the orders, if it returns
abbrev StepsTo : Db → PanelOrder → Db → Type 0
StepsTo d _ d' = Steps d.orders d'.orders

same-Steps : (rows : List PanelOrder) → Steps rows rows
same-Steps rows id o e = (o, e, inl refl)

-- a handler that rewrites the row of an order that it found
rewritten-Steps :
    (d d' : Db) (order_id : ℕ) (to : OrderStatus) (order order' : PanelOrder)
    → IsLocked d order_id to order
    → order'.id ≡ order.id
    → order'.status ≡ to
    → d'.orders ≡ put_row order' d.orders
    → Steps d.orders d'.orders
rewritten-Steps d d' order_id to order order' locked id status orders =
    let is_id : order_id ≡ order.id =
      ground (arith, find-passes (λ o. o.id == order_id) d.orders order locked.found) in
    let found : order_at order'.id d.orders ≡ some order =
      ap (λ i. order_at i d.orders) (id ∙ sym is_id) ∙ locked.found in
    rw orders (
      put_row-Steps order order' d.orders found
        (ap (may_become order.status) status ∙ locked.allowed))

-- a request that raises leaves the state as it was
request_end :
    {A : Type 0} (P : Db → Type 0) (m : Action Db A) (d : Db)
    → P d
    → Post (λ _. P) (request m d)
    → P (request m d).1
unfolding request
request_end {A} P m d before = end (m d).0 (m d).1
  where
    end :
        (r : Result A) (s : Db)
        → Post {A = A}
            (λ _. P)
            (elim r as (λ _. Result A × Db) [ ok a ↦ (ok a, s) | err e ↦ (err e, d) ])
        → P (elim r as (λ _. Result A × Db) [ ok a ↦ (ok a, s) | err e ↦ (err e, d) ]).1
    end (ok a) s h = h
    end (err e) s h = before

pub attach_account-id :
    (given known : Option ℕ) (username : Option String) (o : PanelOrder)
    → (attach_account given known username o).id ≡ o.id
unfolding attach_account
attach_account-id (some a) none username o = refl
attach_account-id (some a) (some b) username o = refl
attach_account-id none known username o = refl

module _ (env : Env) (d : Db) where
  abbrev After : PanelOrder → Db → Type 0
  After _ d' = Steps d.orders d'.orders

  abbrev ends_in_steps :
      (m : Action Db PanelOrder) → Post After (request m d) → Steps d.orders (request m d).1.orders
  ends_in_steps m h = request_end (λ d'. Steps d.orders d'.orders) m d (same-Steps d.orders) h

  created :
      (t : ℕ) (x : OrderIn) (o : PanelOrder) (d' : Db)
      → Created t x d o d'
      → Steps d.orders d'.orders
  created t x order d' c id o e =
      (o, ap (order_at id) c.orders ∙ find_row-append id o d.orders (order ∷ []) e, inl refl)

  customer_moved :
      (t order_id : ℕ) (to : OrderStatus) (o' : PanelOrder) (d' : Db)
      → CustomerMoved env t order_id d to o' d'
      → Steps d.orders d'.orders
  customer_moved t order_id to o' d' m =
      rewritten-Steps d d' order_id to m.order o' m.locked (ap (λ z. z.id) m.moved)
        (ap (λ z. z.status) m.moved) m.rewrites.orders

  customer-Steps :
      (t order_id : ℕ) (to : OrderStatus)
      → Steps d.orders (customer_step env t order_id to d).1.orders
  unfolding customer_step
  customer-Steps t order_id to = ends_in_steps _ (
      Post-weaken (CustomerMoved env t order_id d to) After (customer_step env t order_id to d)
        (customer_step-moves env t order_id d to) (customer_moved t order_id to))

  quoted :
      (t order_id : ℕ) (x : OrderQuoteIn) (o' : PanelOrder) (d' : Db)
      → SellerMoved env t order_id d OrderStatus.quoted (λ _. quoted_order x) o' d'
      → Steps d.orders d'.orders
  unfolding quoted_order
  quoted t order_id x o' d' m =
      rewritten-Steps d d' order_id OrderStatus.quoted m.order o' m.locked (ap (λ z. z.id) m.moved)
        (ap (λ z. z.status) m.moved) m.rewrites.orders

  rejected :
      (now t order_id : ℕ) (reason : String) (o' : PanelOrder) (d' : Db)
      → SellerMoved env t order_id d OrderStatus.rejected (λ r. rejected_order now r reason) o' d'
      → Steps d.orders d'.orders
  unfolding rejected_order
  rejected now t order_id reason o' d' m =
      rewritten-Steps d d' order_id OrderStatus.rejected m.order o' m.locked
        (ap (λ z. z.id) m.moved) (ap (λ z. z.status) m.moved) m.rewrites.orders

  approved :
      (now t order_id : ℕ) (x : OrderApproveIn) (o' : PanelOrder) (d' : Db)
      → Approved env now t order_id x d o' d'
      → Steps d.orders d'.orders
  unfolding approved_order
  approved now t order_id x o' d' m =
      rewritten-Steps d d' order_id OrderStatus.approved m.order o' m.locked
        (ap (λ z. z.id) m.opens.moved
          ∙ attach_account-id x.pg_admin_id m.order.pg_admin_id x.admin_username m.order)
        (ap (λ z. z.status) m.opens.moved) m.opens.orders

  -- A request about orders, whether it is answered or refused, takes no order away, and leaves
  -- each as it was or moves it to a status that ORDER_FLOW allows after its own.
  pub handle-Steps : (c : Call) → Steps d.orders (handle env c d).1.orders
  unfolding create_order confirm_order declare_payment cancel_order quote_order reject_order
      approve_order
  handle-Steps (Call.create identity draws x) = ends_in_steps _ (
      Post-weaken (Created identity.user_id x d) After (create_order env identity draws x d)
        (create_order-Created env identity draws x d) (created identity.user_id x))
  handle-Steps (Call.confirm t o) = customer-Steps t o OrderStatus.confirmed
  handle-Steps (Call.declare t o) = customer-Steps t o OrderStatus.payment_declared
  handle-Steps (Call.cancel t o) = customer-Steps t o OrderStatus.cancelled
  handle-Steps (Call.quote t o x) = ends_in_steps _ (
      Post-weaken (SellerMoved env t o d OrderStatus.quoted (λ _. quoted_order x)) After
        (quote_order env t o x d) (quote_order-moves env t o d x) (quoted t o x))
  handle-Steps (Call.reject now t o reason) = ends_in_steps _ (
      Post-weaken (SellerMoved env t o d OrderStatus.rejected (λ r. rejected_order now r reason))
        After (reject_order env now t o reason d) (reject_order-moves env t o d now reason)
        (rejected now t o reason))
  handle-Steps (Call.approve now t o x) = ends_in_steps _ (
      Post-weaken (Approved env now t o x d) After (approve_order env now t o x d)
        (approve_order-opens env now t o x d) (approved now t o x))

abbrev pub is_final : OrderStatus → Bool
is_final OrderStatus.approved = true
is_final OrderStatus.rejected = true
is_final OrderStatus.cancelled = true
is_final _ = false

final_stops : (from to : OrderStatus) → is_final from ≡ true → may_become from to ≡ false
final_stops OrderStatus.approved to e = refl
final_stops OrderStatus.rejected to e = refl
final_stops OrderStatus.cancelled to e = refl
final_stops OrderStatus.pending to e = cc
final_stops OrderStatus.quoted to e = cc
final_stops OrderStatus.confirmed to e = cc
final_stops OrderStatus.payment_declared to e = cc

handle_final :
    (env : Env) (c : Call) (d : Db) (id : ℕ) (o : PanelOrder)
    → order_at id d.orders ≡ some o
    → is_final o.status ≡ true
    → order_at id (handle env c d).1.orders ≡ some o
handle_final env c d id o e final =
    let (o', found, how) = handle-Steps env d c id o e in
    elim how [
      | inl same ↦ found ∙ ap some same
      | inr moved ↦ cc (final_stops o.status o'.status final)
    ]

-- An approved, rejected or cancelled order keeps its row, unchanged, through any sequence of
-- requests about orders.
pub handle_all-final :
    (env : Env) (calls : List Call) (d : Db) (id : ℕ) (o : PanelOrder)
    → order_at id d.orders ≡ some o
    → is_final o.status ≡ true
    → order_at id (handle_all env calls d).orders ≡ some o
handle_all-final env [] d id o e final = e
handle_all-final env (c ∷ calls) d id o e final =
    handle_all-final env calls (handle env c d).1 id o (handle_final env c d id o e final) final
