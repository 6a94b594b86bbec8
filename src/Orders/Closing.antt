-- ===== src/Orders/Closing.antt =====
-- The parts of an approval: the customer's organization, its account, and the records of the
-- decision (src/control_plane/web_api.py: approve_panel_order).
use pasarguard_control_plane.Base.{
  ℕ, ◌+◌, String, ◌≡◌, refl, false, Option, some, none, [], ◌∷◌, ◌++◌, ok, err, Result, ap, sym,
  ◌∙◌, Action, Post, Post-follow, Post-weaken, pure, modify, ◌>>◌,
}
use pasarguard_control_plane.Tenancy.{Organization, Tenants, add_child}
use pasarguard_control_plane.Ledger.{account, transfer}
use pasarguard_control_plane.Ledger.Rows.{Owner, Key, Kind, Books, Transaction}
use pasarguard_control_plane.Store.{Db, uid, audit, on_books, on_outbox}
use pasarguard_control_plane.Store.Rows.{PanelOrder, Membership, Status}
use pasarguard_control_plane.Orders.{put_row, put_order}
use pasarguard_control_plane.Orders.Seller.{
  customer_org, open_customer, bind_account, approved_order, fund_order, record_approval, equip,
}

-- a call of the ledger changes the books as the ledger says, and nothing else
pub on_books-Post :
    {A : Type 0} (m : Action Books A) (d : Db)
    → Post
        (λ a d'. (m d.books ≡ (ok a, d'.books)) × (d' ≡ record d { books = d'.books }))
        (on_books m d)
unfolding on_books
on_books-Post {A} m d = end (m d.books) refl
  where
    end :
        (r : Result A × Books)
        → m d.books ≡ r
        → Post
            (λ a d'. (m d.books ≡ (ok a, d'.books)) × (d' ≡ record d { books = d'.books }))
            (r.0, record d { books = r.1 })
    end (ok a, b) e = (e, refl)
    end (err x, b) e = tt

module _ (order : PanelOrder) (parent : Organization) (d : Db) where
  -- the organization of the order is in the tree, and its wallet is open
  pub record Joined (child : ℕ) (d' : Db) : Type 0 where
    pub id : child ≡ d.next_id
    pub tenants :
        d'.tenants
        ≡ add_child
            (customer_org d.next_id parent.id order)
            parent.id
            order.price_per_gib_irr
            d.tenants
    pub books : d'.books ≡ (account (Owner.org d.next_id) d.books).1
    pub orders : d'.orders ≡ d.orders

  pub open_customer-Joined : Post Joined (open_customer order parent d)
  unfolding open_customer uid
  open_customer-Joined =
      let c = d.next_id in
      let t : Tenants =
        add_child (customer_org c parent.id order) parent.id order.price_per_gib_irr d.tenants in
      let d1 : Db = record d { next_id = d.next_id + 1; tenants = t } in
      Post-follow
        (λ _. modify (λ d. record d { memberships = d.memberships ++ new_member c ∷ [] }) >> pure c)
        (λ a d'.
          (account (Owner.org c) d1.books ≡ (ok a, d'.books))
          × (d' ≡ record d1 { books = d'.books }))
        Joined (on_books (account (Owner.org c)) d1) (on_books-Post (account (Owner.org c)) d1)
        (λ a d' (opened, rest). record {
          id = refl;
          tenants = ap (λ z. z.tenants) rest;
          books = sym (ap (λ z. z.1) opened);
          orders = ap (λ z. z.orders) rest;
        })
    where
      new_member : ℕ → Membership
      new_member c = record {
        organization_id = c;
        actor_id = order.actor_id;
        role = "customer";
        status = Status.active;
      }

-- the three tables that the end of an approval is about
record SameTables (d d' : Db) : Type 0 where
  pub orders : d'.orders ≡ d.orders
  pub books : d'.books ≡ d.books
  pub tenants : d'.tenants ≡ d.tenants

bind_account-SameTables :
    (account : Option ℕ) (username : String) (child panel : ℕ) (d : Db)
    → Post (λ _. SameTables d) (bind_account account username child panel d)
unfolding bind_account
bind_account-SameTables none username child panel d = record {
  orders = refl;
  books = refl;
  tenants = refl;
}
bind_account-SameTables (some a) username child panel d = record {
  orders = refl;
  books = refl;
  tenants = refl;
}

module _ (now : ℕ) (order : PanelOrder) (reviewer panel child : ℕ) where
  -- the wallet of the child, funded with the price of the order
  pub record Funded (d : Db) (transaction : Transaction) (b : Books) : Type 0 where
    pub posted :
        transfer d.tenants.organizations Owner.system
          (Owner.org child)
          order.amount_irr
          (Key.panel_order order.id)
          Kind.order_funded
          (some order.id)
          false
          (some reviewer)
          d.books
        ≡ (ok transaction, b)

  pub record Closed (d : Db) (order' : PanelOrder) (d' : Db) : Type 0 where
    pub moved : order' ≡ approved_order now reviewer child order
    pub orders : d'.orders ≡ put_row order' d.orders
    pub tenants : d'.tenants ≡ d.tenants
    pub transaction : Transaction
    pub funded : Funded d transaction d'.books

  fund_order-Funded :
      (d : Db)
      → Post
          (λ _ d'. (t : Transaction) × Funded d t d'.books × (d' ≡ record d { books = d'.books }))
          (fund_order order child reviewer d)
  unfolding fund_order
  fund_order-Funded d =
      let m : Action Books Transaction =
        transfer d.tenants.organizations Owner.system (Owner.org child) order.amount_irr
          (Key.panel_order order.id) Kind.order_funded (some order.id) false (some reviewer) in
      Post-follow (λ _. pure tt)
        (λ t d'. (m d.books ≡ (ok t, d'.books)) × (d' ≡ record d { books = d'.books }))
        (λ _ d'. (t : Transaction) × Funded d t d'.books × (d' ≡ record d { books = d'.books }))
        (on_books m d) (on_books-Post m d) (λ t d' (e, rest). (t, record { posted = e }, rest))

  record_approval-Closed :
      (d : Db)
      → Post
          (λ o' d'.
            (o' ≡ approved_order now reviewer child order)
            × (d'.orders ≡ put_row o' d.orders)
            × (d'.tenants ≡ d.tenants)
            × (d'.books ≡ d.books))
          (record_approval now order reviewer child panel d)
  unfolding record_approval put_order audit on_outbox
  record_approval-Closed d = (refl, refl, refl, refl)

  pub equip-Closed : (d : Db) → Post (Closed d) (equip now order reviewer panel child d)
  unfolding equip
  equip-Closed d =
      let last : Action Db PanelOrder = record_approval now order reviewer child panel in
      let fund : Action Db (Unit {0}) = fund_order order child reviewer in
      let bind : Action Db (Unit {0}) =
        bind_account order.pg_admin_id order.admin_username child panel in
      Post-follow (λ _. fund >> last) (λ _. SameTables d) (Closed d) (bind d)
        (bind_account-SameTables order.pg_admin_id order.admin_username child panel d)
        (λ _ d1 same.
          Post-follow (λ _. last)
            (λ _ d2.
              (t : Transaction) × Funded d1 t d2.books × (d2 ≡ record d1 { books = d2.books }))
            (Closed d) (fund d1) (fund_order-Funded d1)
            (λ _ d2 (t, f, rest).
              Post-weaken _ (Closed d) (last d2) (record_approval-Closed d2)
                (λ o' d3 (moved, orders, tenants, books). record {
                  moved = moved;
                  orders = orders ∙ ap (put_row o') (ap (λ z. z.orders) rest ∙ same.orders);
                  tenants = tenants ∙ ap (λ z. z.tenants) rest ∙ same.tenants;
                  transaction = t;
                  funded = record { posted = rw (← same.tenants, ← same.books, books) f.posted };
                })))
