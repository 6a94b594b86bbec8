-- ===== src/Orders/Money.antt =====
-- The ledger and the tree under the approval of an order (web_api.py: approve_panel_order).
use pasarguard_control_plane.Base.{
  ℕ, ◌≡◌, refl, ap, sym, ◌∙◌, none, some, false, Post, Post-weaken, ok, pos, ◌+ℤ◌, inl, inr,
  int_laws, ◌==◌, ==_refl, find-passes, ==_iff,
}
use pasarguard_control_plane.Tenancy.{get_org}
use pasarguard_control_plane.Tenancy.Tree.{IsTree, add_child-IsTree}
use pasarguard_control_plane.Ledger.{account, find_transaction}
use pasarguard_control_plane.Ledger.Rows.{Owner, Key, Kind, Books}
use pasarguard_control_plane.Ledger.Accounts.{balance_of, account-Opened}
use pasarguard_control_plane.Ledger.Sound.{IsSound, posted, transfer-IsSound}
use pasarguard_control_plane.Ledger.Credit.{Ended}
use pasarguard_control_plane.Store.{Db, Env}
use pasarguard_control_plane.Store.Rows.{OrderStatus, PanelOrder}
use pasarguard_control_plane.Orders.Names.{attach_account}
use pasarguard_control_plane.Orders.Reads.{IsLocked}
use pasarguard_control_plane.Orders.Flow.{attach_account-id}
use pasarguard_control_plane.Orders.Seller.{
  OrderApproveIn, customer_org, approved_order, approve_order,
}
use pasarguard_control_plane.Orders.Approve.{Opens, Approved, approve_order-opens}

pub account-IsSound : (o : Owner) (b : Books) → IsSound b → IsSound (account o b).1
account-IsSound o b s =
    let a = account-Opened o b in
    record {
      distinct = a.distinct s.distinct;
      balanced = λ p. a.reads p ∙ s.balanced p ∙ sym (ap (posted p) a.entries);
      zero_sum = a.sums ∙ s.zero_sum;
    }

module _ (env : Env) (now : ℕ) (order : PanelOrder) (reviewer seller : ℕ) (d : Db)
    (order' : PanelOrder) (d' : Db) where
  Opens-IsSound :
      Opens env now order reviewer seller d order' d' → IsSound d.books → IsSound d'.books
  Opens-IsSound o s =
      let c = Owner.org d.next_id in
      rw (← ap (λ z. z.1) o.funded) (
        transfer-IsSound d'.tenants.organizations Owner.system c order.amount_irr
          (Key.panel_order order.id) Kind.order_funded (some order.id) false (some reviewer)
          (account c d.books).1 (account-IsSound c d.books s))

  Opens-IsTree :
      Opens env now order reviewer seller d order' d'
      → IsTree d.tenants
      → get_org d.next_id d.tenants.organizations ≡ none
      → IsTree d'.tenants
  unfolding customer_org
  Opens-IsTree o t fresh = rw o.tenants (
      add_child-IsTree (customer_org d.next_id o.parent.id order) o.parent.id
        order.price_per_gib_irr d.tenants t fresh refl (rw seller_found refl))
    where
      same_id : o.parent.id ≡ seller
      same_id =
          (==_iff o.parent.id seller).0
            (find-passes (λ x. x.id == seller) d.tenants.organizations o.parent o.found)

      seller_found : get_org o.parent.id d.tenants.organizations ≡ some o.parent
      seller_found = ap (λ i. get_org i d.tenants.organizations) same_id ∙ o.found

  -- the wallet of the customer gains the amount of the order
  Opens-funds :
      Opens env now order reviewer seller d order' d'
      → find_transaction (Key.panel_order order.id) d.books.transactions ≡ none
      → balance_of (Owner.org d.next_id) d'.books.accounts
        ≡ pos order.amount_irr +ℤ balance_of (Owner.org d.next_id) d.books.accounts
  Opens-funds o fresh = by_end o.paid
    where
      c : Owner
      c = Owner.org d.next_id

      b : Books
      b = (account c d.books).1

      still_fresh : find_transaction (Key.panel_order order.id) b.transactions ≡ none
      still_fresh =
          ap (find_transaction (Key.panel_order order.id)) ((account-Opened c d.books).transactions)
          ∙ fresh

      by_end :
          Ended d'.tenants.organizations Owner.system c order.amount_irr
            (Key.panel_order order.id)
            Kind.order_funded
            (some order.id)
            false
            (some reviewer)
            b
            (ok o.transaction, d'.books)
          → balance_of c d'.books.accounts ≡ pos order.amount_irr +ℤ balance_of c d.books.accounts
      by_end (inl (_, _, moved)) =
          moved c ∙ rw ((account-Opened c d.books).reads c, ==_refl d.next_id) (omega int_laws)
      by_end (inr (old, _)) = cc (old, still_fresh)

module _ (env : Env) (now telegram_id order_id : ℕ) (x : OrderApproveIn) (d : Db) where
  -- If no organization has the id that an approval takes next, an approval that returns keeps the
  -- ledger sound and the closure table equal to the parent pointers.
  pub approve_order-keeps :
      IsSound d.books
      → IsTree d.tenants
      → get_org d.next_id d.tenants.organizations ≡ none
      → Post
          (λ _ d'. IsSound d'.books × IsTree d'.tenants)
          (approve_order env now telegram_id order_id x d)
  approve_order-keeps sound tree fresh =
      Post-weaken (Approved env now telegram_id order_id x d)
        (λ _ d'. IsSound d'.books × IsTree d'.tenants)
        (approve_order env now telegram_id order_id x d)
        (approve_order-opens env now telegram_id order_id x d)
        (λ o' d' a. (
          Opens-IsSound env now _ a.caller.actor.id a.caller.organization.id d o' d' a.opens sound,
          Opens-IsTree env now _ a.caller.actor.id a.caller.organization.id d o' d' a.opens tree
              fresh,
        ))

  attached_id :
      (order : PanelOrder)
      → IsLocked d order_id OrderStatus.approved order
      → (attach_account x.pg_admin_id order.pg_admin_id x.admin_username order).id ≡ order_id
  attached_id order locked =
      attach_account-id x.pg_admin_id order.pg_admin_id x.admin_username order
      ∙ (==_iff order.id order_id).0
          (find-passes (λ o. o.id == order_id) d.orders order locked.found)

  -- Where the ledger has no posting for an order yet, an approval that returns adds exactly the
  -- amount of the order to the wallet of the organization that it has made.
  pub approve_order-funds :
      find_transaction (Key.panel_order order_id) d.books.transactions ≡ none
      → Post
          (λ o' d'.
            balance_of (Owner.org d.next_id) d'.books.accounts
            ≡ pos o'.amount_irr +ℤ balance_of (Owner.org d.next_id) d.books.accounts)
          (approve_order env now telegram_id order_id x d)
  unfolding approved_order
  approve_order-funds fresh =
      Post-weaken (Approved env now telegram_id order_id x d) _
        (approve_order env now telegram_id order_id x d)
        (approve_order-opens env now telegram_id order_id x d)
        (λ o' d' a.
          let order = attach_account x.pg_admin_id a.order.pg_admin_id x.admin_username a.order in
          rw (ap (λ z. z.amount_irr) a.opens.moved) (
            Opens-funds env now order a.caller.actor.id a.caller.organization.id d o' d' a.opens (
              ap (λ i. find_transaction (Key.panel_order i) d.books.transactions)
                (attached_id a.order a.locked)
              ∙ fresh)))
