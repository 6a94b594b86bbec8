-- ===== src/Tests/Funnel.antt =====
-- Runs of the customer funnel, of funding and of approvals.
use pasarguard_control_plane.Rbac.{effective_role, may}
use pasarguard_control_plane.Identity.{create_requester, manager, order_permission}
use pasarguard_control_plane.Base.{
  ◌≡◌, refl, true, false, some, none, [], ◌∷◌, err, ok, http, Post, pos, ◌+ℤ◌,
}
use pasarguard_control_plane.Tenancy.{assert_depth_allowed}
use pasarguard_control_plane.Tenancy.Tree.{IsTree}
use pasarguard_control_plane.Ledger.{find_transaction, account, transfer}
use pasarguard_control_plane.Ledger.Rows.{Owner, Key}
use pasarguard_control_plane.Ledger.Accounts.{balance_of}
use pasarguard_control_plane.Ledger.Sound.{IsSound}
use pasarguard_control_plane.Store.{Db, audit, on_books, on_outbox, request, uid}
use pasarguard_control_plane.Store.Rows.{OrderStatus}
use pasarguard_control_plane.Orders.{create_order, create_panel_order, locked_order, put_order}
use pasarguard_control_plane.Orders.Seller.{OrderApproveIn, approve_order}
use pasarguard_control_plane.Orders.Money.{approve_order-keeps, approve_order-funds}
use pasarguard_control_plane.Orders.Flow.{Call, handle, handle-Steps, handle_all, handle_all-final}
use pasarguard_control_plane.Orders.Rows.{order_at, Steps}
use pasarguard_control_plane.Funding.{decide_funding_request}
use pasarguard_control_plane.Funding.Decide.{
  Decided, decide_funding_request-Decided, decide_funding_request-once,
}
use pasarguard_control_plane.Approvals.{put_row, locked_pending_approval}
use pasarguard_control_plane.Approvals.Adjust.{expired, locked_pending_approval-expires}
use pasarguard_control_plane.Tests.Data.{
  db_with, env, order_in, stranger, plan_order, lone_tenants, correction,
}
use pasarguard_control_plane.Tests.Kernel.{no_books-IsSound, lone_tenants-IsTree}

abbrev paid_db : Db
paid_db = db_with OrderStatus.payment_declared

-- the registration of a plan order is answered: its terms are those of the plan
create_order_run :
    (elim (create_order env stranger ("panel-2" ∷ []) plan_order paid_db).0 [
      | ok o ↦ o.amount_irr
      | err e ↦ 0
    ])
    ≡ 60000
unfolding create_order request order_permission create_panel_order create_requester uid audit
create_order_run = refl

abbrev attach : OrderApproveIn
attach = record { pg_admin_id = some 5; admin_username = some " cafe " }

-- the approval is answered, with the organization that it made
approve_order_run :
    (elim (approve_order env 99 8 40 attach paid_db).0 [ ok o ↦ o.organization_id | err e ↦ none ])
    ≡ some 100
unfolding approve_order request manager may effective_role locked_order assert_depth_allowed uid
    on_books account transfer put_order audit on_outbox
approve_order_run = refl

unposted : find_transaction (Key.panel_order 40) paid_db.books.transactions ≡ none
unfolding find_transaction
unposted = refl

approve_order-funds_example :
    Post
      (λ o' d'.
        balance_of (Owner.org paid_db.next_id) d'.books.accounts
        ≡ pos o'.amount_irr +ℤ balance_of (Owner.org paid_db.next_id) paid_db.books.accounts)
      (approve_order env 99 8 40 attach paid_db)
approve_order-funds_example = approve_order-funds env 99 8 40 attach paid_db unposted

-- the root organization itself sells the server
abbrev lone_db : Db
lone_db = record paid_db {
  tenants = lone_tenants;
  panel_owners = record { panel_id = 20; organization_id = 1 } ∷ [];
}

approve_order-keeps_example :
    Post (λ _ d'. IsSound d'.books × IsTree d'.tenants) (approve_order env 99 7 40 attach lone_db)
approve_order-keeps_example =
    approve_order-keeps env 99 7 40 attach lone_db no_books-IsSound lone_tenants-IsTree refl

lone_order_run :
    (elim (approve_order env 99 7 40 attach lone_db).0 [ ok o ↦ o.organization_id | err e ↦ none ])
    ≡ some 100
unfolding approve_order request manager may effective_role locked_order assert_depth_allowed uid
    on_books account transfer put_order audit on_outbox
lone_order_run = refl

handle-Steps_example :
    Steps paid_db.orders (handle env (Call.approve 99 8 40 attach) paid_db).1.orders
handle-Steps_example = handle-Steps env paid_db (Call.approve 99 8 40 attach)

handle_all-final_example :
    order_at 40
      (handle_all env
        (Call.cancel 9 40 ∷ Call.approve 99 8 40 attach ∷ [])
        (db_with OrderStatus.rejected)).orders
    ≡ some (order_in OrderStatus.rejected)
handle_all-final_example =
    handle_all-final env (Call.cancel 9 40 ∷ Call.approve 99 8 40 attach ∷ [])
      (db_with OrderStatus.rejected) 40 (order_in OrderStatus.rejected) refl refl

decide_funding_request-Decided_example :
    Post
      (Decided 99 51 2 60 "approve" false paid_db)
      (decide_funding_request 99 51 2 60 "approve" false paid_db)
decide_funding_request-Decided_example =
    decide_funding_request-Decided 99 51 2 60 "approve" false paid_db

decide_funding_request-once_example :
    Post
      (λ _ d'. decide_funding_request 100 50 1 60 "reject" true d' ≡ (err (http 409), d'))
      (decide_funding_request 99 51 2 60 "approve" false paid_db)
decide_funding_request-once_example =
    decide_funding_request-once 99 51 2 60 "approve" false paid_db 100 50 1 "reject" true refl

-- the first decision is answered
decide_funding_request_run :
    (elim (decide_funding_request 99 51 2 60 "approve" false paid_db).0 [
      | ok r ↦ r.decided_by
      | err e ↦ none
    ])
    ≡ some 51
unfolding decide_funding_request on_books transfer audit
decide_funding_request_run = refl

locked_pending_approval-expires_example :
    let (r, d') = locked_pending_approval 70 1000 paid_db in
    (r ≡ err (http 410))
    × (d'.books ≡ paid_db.books)
    × (d'.approvals ≡ put_row (expired 1000 correction) paid_db.approvals)
    × (locked_pending_approval 70 1001 d' ≡ (err (http 409), d'))
locked_pending_approval-expires_example =
    locked_pending_approval-expires 70 1000 correction paid_db refl refl refl 1001
