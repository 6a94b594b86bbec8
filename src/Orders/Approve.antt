-- ===== src/Orders/Approve.antt =====
-- What the approval of an order does when it returns (web_api.py: approve_panel_order,
-- approve_order): the organization, its wallet and the order.
use pasarguard_control_plane.Base.{
  attribute_error, ℕ, str_eq, ◌≡◌, false, some, ◌==◌, find, any, ok, ap, ◌∙◌, Action, Post,
  Post-follow, Reads-follow, Post-weaken, lift-Reads, or_raise-Reads, raise_if-Reads, or_raise,
  gets, raise_if, http, ◌>>=◌, ◌>>◌,
}
use pasarguard_control_plane.Tenancy.{Organization, get_org, assert_depth_allowed, add_child}
use pasarguard_control_plane.Ledger.{account, transfer}
use pasarguard_control_plane.Ledger.Credit.{Ended, returned-Ended}
use pasarguard_control_plane.Ledger.Rows.{Owner, Key, Kind, Transaction}
use pasarguard_control_plane.Store.{Db, Env}
use pasarguard_control_plane.Store.Rows.{OrderStatus, PanelOrder, Panel}
use pasarguard_control_plane.Identity.{Caller}
use pasarguard_control_plane.Orders.{put_row}
use pasarguard_control_plane.Orders.Names.{attach_account}
use pasarguard_control_plane.Orders.Seller.{
  OrderApproveIn, customer_org, open_customer, approved_order, equip, open_account,
  approve_panel_order, approve_order,
}
use pasarguard_control_plane.Orders.Reads.{IsLocked}
use pasarguard_control_plane.Orders.Moves.{IsSeller, seller_guards}
use pasarguard_control_plane.Orders.Closing.{Joined, open_customer-Joined, Closed, equip-Closed}

-- The order is closed as approved, its organization stands under the seller with the contract and
-- the credit that it agreed, and the transfer to its new wallet has returned: it has posted the
-- amount, or the key of the order had been used before and nothing has moved.
pub record Opens (env : Env) (now : ℕ) (order : PanelOrder) (reviewer seller : ℕ) (d : Db)
    (order' : PanelOrder) (d' : Db) : Type 0 where
  pub parent : Organization
  pub found : get_org seller d.tenants.organizations ≡ some parent
  pub shallow : assert_depth_allowed env.max_tree_depth d.tenants parent ≡ ok tt
  pub slug_free : any (λ o. str_eq o.slug order.slug) d.tenants.organizations ≡ false
  pub moved : order' ≡ approved_order now reviewer d.next_id order
  pub orders : d'.orders ≡ put_row order' d.orders
  pub tenants :
      d'.tenants
      ≡ add_child
          (customer_org d.next_id parent.id order)
          parent.id
          order.price_per_gib_irr
          d.tenants
  pub transaction : Transaction
  pub funded :
      transfer d'.tenants.organizations Owner.system
        (Owner.org d.next_id)
        order.amount_irr
        (Key.panel_order order.id)
        Kind.order_funded
        (some order.id)
        false
        (some reviewer)
        (account (Owner.org d.next_id) d.books).1
      ≡ (ok transaction, d'.books)
  pub paid :
      Ended d'.tenants.organizations Owner.system
        (Owner.org d.next_id)
        order.amount_irr
        (Key.panel_order order.id)
        Kind.order_funded
        (some order.id)
        false
        (some reviewer)
        (account (Owner.org d.next_id) d.books).1
        (ok transaction, d'.books)

module _ (env : Env) (now : ℕ) (order : PanelOrder) (reviewer seller : ℕ) (d : Db) where
  joined-Opens :
      (parent : Organization) (panel : ℕ)
      → get_org seller d.tenants.organizations ≡ some parent
      → assert_depth_allowed env.max_tree_depth d.tenants parent ≡ ok tt
      → any (λ o. str_eq o.slug order.slug) d.tenants.organizations ≡ false
      → Post
          (Opens env now order reviewer seller d)
          ((open_customer order parent >>= λ c. equip now order reviewer panel c) d)
  joined-Opens parent panel found shallow slug_free =
      Post-follow (λ c. equip now order reviewer panel c) (Joined order parent d)
        (Opens env now order reviewer seller d) (open_customer order parent d)
        (open_customer-Joined order parent d)
        (λ c d1 j.
          Post-weaken (Closed now order reviewer panel c d1) (Opens env now order reviewer seller d)
            (equip now order reviewer panel c d1) (equip-Closed now order reviewer panel c d1)
            (λ o' d2 closed.
              let funded : transfer d2.tenants.organizations Owner.system (Owner.org d.next_id)
                    order.amount_irr (Key.panel_order order.id) Kind.order_funded (some order.id)
                    false (some reviewer) (account (Owner.org d.next_id) d.books).1
                  ≡ (ok closed.transaction, d2.books) =
                rw (← j.books, ← j.id, closed.tenants) closed.funded.posted in
              record {
                parent = parent;
                found = found;
                shallow = shallow;
                slug_free = slug_free;
                moved = rw (← j.id) closed.moved;
                orders = closed.orders ∙ ap (put_row o') j.orders;
                tenants = closed.tenants ∙ j.tenants;
                transaction = closed.transaction;
                funded = funded;
                paid =
                    returned-Ended d2.tenants.organizations Owner.system (Owner.org d.next_id)
                      order.amount_irr (Key.panel_order order.id) Kind.order_funded (some order.id)
                      false (some reviewer) (account (Owner.org d.next_id) d.books).1 funded;
              }))

  open_account-Opens :
      Post (Opens env now order reviewer seller d) (open_account env now order reviewer seller d)
  unfolding open_account
  open_account-Opens =
      let Q : PanelOrder → Db → Type 0 = Opens env now order reviewer seller d in
      let join : Panel → Organization → Action Db PanelOrder =
        λ p o. open_customer order o >>= λ c. equip now order reviewer p.id c in
      let slug : Panel → Organization → Action Db PanelOrder = λ p o.
        (λ d. raise_if (any (λ x. str_eq x.slug order.slug) d.tenants.organizations) (http 409) d)
        >> join p o in
      let depth : Panel → Organization → Action Db PanelOrder =
        λ p o. (λ d. (assert_depth_allowed env.max_tree_depth d.tenants o, d)) >> slug p o in
      let look : Panel → Action Db PanelOrder = λ p.
        (gets (λ d. get_org seller d.tenants.organizations) >>= λ o. or_raise o attribute_error)
        >>= depth p in
      Reads-follow look d (λ p. find (λ p. p.id == order.panel_id) d.panels ≡ some p) Q _
        (or_raise-Reads d attribute_error (find (λ p. p.id == order.panel_id) d.panels))
        (λ p _.
          Reads-follow (depth p) d (λ o. get_org seller d.tenants.organizations ≡ some o) Q _
            (or_raise-Reads d attribute_error (get_org seller d.tenants.organizations))
            (λ o found.
              Reads-follow (λ _. slug p o) d
                (λ a. assert_depth_allowed env.max_tree_depth d.tenants o ≡ ok a) Q _
                (lift-Reads d (assert_depth_allowed env.max_tree_depth d.tenants o))
                (λ _ shallow.
                  Reads-follow (λ _. join p o) d
                    (λ _. any (λ x. str_eq x.slug order.slug) d.tenants.organizations ≡ false) Q _
                    (raise_if-Reads d (http 409)
                      (any (λ x. str_eq x.slug order.slug) d.tenants.organizations))
                    (λ _ free. joined-Opens o p.id found shallow free))))

module _ (env : Env) (now telegram_id order_id : ℕ) (x : OrderApproveIn) (d : Db) where
  pub record Approved (order' : PanelOrder) (d' : Db) : Type 0 where
    pub order : PanelOrder
    pub caller : Caller
    pub locked : IsLocked d order_id OrderStatus.approved order
    pub seller : IsSeller env telegram_id order_id d order caller
    pub opens :
        Opens env now
          (attach_account x.pg_admin_id order.pg_admin_id x.admin_username order)
          caller.actor.id
          caller.organization.id
          d
          order'
          d'

  pub approve_order-opens : Post Approved (approve_order env now telegram_id order_id x d)
  unfolding approve_order approve_panel_order
  approve_order-opens =
      let attach : PanelOrder → PanelOrder =
        λ o. attach_account x.pg_admin_id o.pg_admin_id x.admin_username o in
      seller_guards env telegram_id order_id d OrderStatus.approved
        (λ c o. open_account env now (attach o) c.actor.id c.organization.id) Approved
        (λ c o l s.
          Post-weaken _ Approved (open_account env now (attach o) c.actor.id c.organization.id d)
            (open_account-Opens env now (attach o) c.actor.id c.organization.id d)
            (λ o' d' opens. record {
              order = o;
              caller = c;
              locked = l;
              seller = s;
              opens = opens;
            }))
