-- ===== src/Orders/Moves.antt =====
-- What the handlers of an order do when they return: the row that they rewrite, and the guards
-- that let them.
use pasarguard_control_plane.Base.{
  ℕ, String, ◌≡◌, refl, true, some, [], ◌∷◌, ok, err, Result, Action, Post, Reads-follow,
  Reads-result, lift, pure, ◌>>=◌, ◌>>◌,
}
use pasarguard_control_plane.Rbac.{Permission, may}
use pasarguard_control_plane.Store.{Db, Env, audit, request}
use pasarguard_control_plane.Store.Rows.{OrderStatus, PanelOrder, Detail}
use pasarguard_control_plane.Identity.{Caller, role_of, manager, order_permission, owns_panel}
use pasarguard_control_plane.Orders.{
  may_become, put_row, put_order, require_transition, locked_order,
}
use pasarguard_control_plane.Orders.Customer.{
  customer_transition, declared_amount, owned_order, advance_customer_order, customer_step,
}
use pasarguard_control_plane.Orders.Seller.{
  OrderQuoteIn, quote_details, assert_order_seller, quoted_order, quote_panel_order, quote_order,
  rejected_order, reject_panel_order, reject_order,
}
use pasarguard_control_plane.Orders.Reads.{
  IsLocked, IsRequester, require_transition-Reads, locked_order-Reads, owned_order-Reads,
  order_permission-Reads, manager-Reads, assert_order_seller-Reads,
}

-- Only an order's row has changed, and the audit log.
pub record Rewrites (d d' : Db) (order' : PanelOrder) : Type 0 where
  pub orders : d'.orders ≡ put_row order' d.orders
  pub books : d'.books ≡ d.books
  pub tenants : d'.tenants ≡ d.tenants
  pub outbox : d'.outbox ≡ d.outbox

-- the end of a request: on a raise the state is the one it began with
pub request-Post :
    {A : Type 0} (R : A → Db → Type 0) (m : Action Db A) (d : Db)
    → Post R (m d)
    → Post R (request m d)
unfolding request
request-Post {A} R m d h = end (m d) h
  where
    end :
        (r : Result A × Db)
        → Post R r
        → Post R (elim r.0 [ ok a ↦ (ok a, r.1) | err e ↦ (err e, d) ])
    end (ok a, s) k = k
    end (err e, s) k = tt

module _ (env : Env) (telegram_id order_id : ℕ) (d : Db) where
  -- the row that a customer's step rewrites
  pub record CustomerMoved (to : OrderStatus) (order' : PanelOrder) (d' : Db) : Type 0 where
    pub order : PanelOrder
    pub locked : IsLocked d order_id to order
    pub requester : IsRequester telegram_id d order
    pub moved : order' ≡ record order { status = to }
    pub rewrites : Rewrites d d' order'

  -- A step of a customer that returns moves an order of the caller's own from a status that allows
  -- it to the asked one, and rewrites no other row: no money moves.
  pub customer_step-moves :
      (to : OrderStatus) → Post (CustomerMoved to) (customer_step env telegram_id order_id to d)
  unfolding customer_step advance_customer_order put_order audit
  customer_step-moves to =
      let Q : PanelOrder → Db → Type 0 = CustomerMoved to in
      let body : Action Db PanelOrder =
        order_permission env telegram_id Permission.order_panel
        >> (owned_order telegram_id order_id to >>= λ o. advance_customer_order o to) in
      request-Post Q body d (
        Reads-follow (λ _. owned_order telegram_id order_id to >>= λ o. advance_customer_order o to)
          d (λ _. Unit {0}) Q (order_permission env telegram_id Permission.order_panel d)
          (order_permission-Reads d env telegram_id Permission.order_panel)
          (λ _ _.
            Reads-follow (λ o. advance_customer_order o to) d
              (λ o. IsLocked d order_id to o × IsRequester telegram_id d o) Q
              (owned_order telegram_id order_id to d) (owned_order-Reads d telegram_id order_id to)
              (λ o (locked, mine).
                Reads-follow
                  (λ _.
                    put_order (record o { status = to })
                    >> (audit (customer_transition to) "panel_order" (some o.id) (some o.actor_id)
                          o.organization_id (declared_amount to o.amount_irr)
                        >> pure (record o { status = to })))
                  d (λ _. may_become o.status to ≡ true) Q _ (require_transition-Reads d o to)
                  (λ _ _. record {
                    order = o;
                    locked = locked;
                    requester = mine;
                    moved = refl;
                    rewrites = record {
                      orders = refl;
                      books = refl;
                      tenants = refl;
                      outbox = refl;
                    };
                  }))))

  -- the caller decides orders, and its organization owns the server of the order
  pub record IsSeller (order : PanelOrder) (caller : Caller) : Type 0 where
    pub known : (manager env telegram_id Permission.decide_orders d).0 ≡ ok caller
    pub permitted : may (role_of env telegram_id caller.membership) Permission.decide_orders ≡ true
    pub owner : owns_panel order.panel_id caller.organization.id d ≡ true

  pub record SellerMoved (to : OrderStatus) (change : ℕ → PanelOrder → PanelOrder)
      (order' : PanelOrder) (d' : Db) : Type 0 where
    pub order : PanelOrder
    pub caller : Caller
    pub locked : IsLocked d order_id to order
    pub seller : IsSeller order caller
    pub moved : order' ≡ change caller.actor.id order
    pub rewrites : Rewrites d d' order'

  -- the guards that the seller's handlers share, in front of what they do with the order
  pub seller_guards :
      (to : OrderStatus) (f : Caller → PanelOrder → Action Db PanelOrder)
      (R : PanelOrder → Db → Type 0)
      → ((c : Caller) (o : PanelOrder) → IsLocked d order_id to o → IsSeller o c → Post R (f c o d))
      → Post R (
          request
            (manager env telegram_id Permission.decide_orders >>= λ c.
              locked_order order_id to >>= λ o.
              assert_order_seller o c.organization.id >> (lift (require_transition o to) >> f c o))
            d)
  seller_guards to f R k =
      let p = Permission.decide_orders in
      let rest : Caller → PanelOrder → Action Db PanelOrder =
        λ c o. lift (require_transition o to) >> f c o in
      let sold : Caller → PanelOrder → Action Db PanelOrder =
        λ c o. assert_order_seller o c.organization.id >> rest c o in
      let locked : Caller → Action Db PanelOrder = λ c. locked_order order_id to >>= sold c in
      let May : Caller → Type 0 = λ c. may (role_of env telegram_id c.membership) p ≡ true in
      request-Post R (manager env telegram_id p >>= locked) d (
        Reads-follow locked d (λ c. ((manager env telegram_id p d).0 ≡ ok c) × May c) R
          (manager env telegram_id p d)
          (Reads-result d May (manager env telegram_id p d) (manager-Reads d env telegram_id p))
          (λ c (known, permitted).
            Reads-follow (sold c) d (IsLocked d order_id to) R (locked_order order_id to d)
              (locked_order-Reads d order_id to)
              (λ o l.
                Reads-follow (λ _. rest c o) d
                  (λ _. owns_panel o.panel_id c.organization.id d ≡ true) R
                  (assert_order_seller o c.organization.id d)
                  (assert_order_seller-Reads d o c.organization.id)
                  (λ _ owner.
                    Reads-follow (λ _. f c o) d (λ _. may_become o.status to ≡ true) R
                      (require_transition o to, d) (require_transition-Reads d o to)
                      (λ _ _.
                        k c o l
                          (record { known = known; permitted = permitted; owner = owner }))))))

  -- A quote that returns was given by somebody who decides orders for the owner of the server, on
  -- an order that may be quoted; it sets the order's terms and nothing else, and no money moves.
  pub quote_order-moves :
      (x : OrderQuoteIn)
      → Post
          (SellerMoved OrderStatus.quoted (λ _. quoted_order x))
          (quote_order env telegram_id order_id x d)
  unfolding quote_order quote_panel_order put_order audit quoted_order
  quote_order-moves x =
      seller_guards OrderStatus.quoted
        (λ c o.
          put_order (quoted_order x o)
          >> (audit "panel_order.quote" "panel_order" (some o.id) (some c.actor.id)
                (some c.organization.id) (quote_details x)
              >> pure (quoted_order x o)))
        (SellerMoved OrderStatus.quoted (λ _. quoted_order x))
        (λ c o l s. record {
          order = o;
          caller = c;
          locked = l;
          seller = s;
          moved = refl;
          rewrites = record { orders = refl; books = refl; tenants = refl; outbox = refl };
        })

  -- A rejection that returns was decided by somebody who decides orders for the owner of the
  -- server, on an order that may be rejected; it records who, when and why, and no money moves.
  pub reject_order-moves :
      (now : ℕ) (reason : String)
      → Post
          (SellerMoved OrderStatus.rejected (λ reviewer. rejected_order now reviewer reason))
          (reject_order env now telegram_id order_id reason d)
  unfolding reject_order reject_panel_order put_order audit rejected_order
  reject_order-moves now reason =
      seller_guards OrderStatus.rejected
        (λ c o.
          put_order (rejected_order now c.actor.id reason o)
          >> (audit "panel_order.reject" "panel_order" (some o.id) (some c.actor.id)
                (some c.organization.id) (("reason", Detail.text reason) ∷ [])
              >> pure (rejected_order now c.actor.id reason o)))
        (SellerMoved OrderStatus.rejected (λ reviewer. rejected_order now reviewer reason))
        (λ c o l s. record {
          order = o;
          caller = c;
          locked = l;
          seller = s;
          moved = refl;
          rewrites = record { orders = refl; books = refl; tenants = refl; outbox = refl };
        })
