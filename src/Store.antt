-- ===== src/Store.antt =====
-- The tables of src/control_plane/app.py as one state, and the session's helpers: audit, and the
-- commit or rollback that ends a request. Rows that a session adds are seen by its later queries.
pub mod Rows
use pasarguard_control_plane.Base.{
  ℕ, ◌+◌, String, Bool, true, false, Option, some, none, List, [], ◌∷◌, ◌++◌, ◌==◌, Result, ok, err,
  Error, Action, pure, find, if◌then◌else◌,
}
use pasarguard_control_plane.Ledger.Rows.{Books, Key}
use pasarguard_control_plane.Tenancy.{Tenants}
use pasarguard_control_plane.Outbox.Rows.{Event, Topic, Payload}
use pasarguard_control_plane.Outbox.{enqueue}
use Rows.{
  Panel, PanelOwner, PlanCategory, Plan, Binding, Checkpoint, Usage, Actor, Membership,
  FundingRequest, PanelOrder, Detail, AuditLog, ApprovalRequest,
}

-- `next_id` stands for `uid()`: every id is new.
pub record Db : Type 0 where
  pub next_id : ℕ
  -- the row "bootstrap_complete" of system_settings: the root organization
  pub bootstrap_complete : Option ℕ
  pub books : Books
  pub tenants : Tenants
  pub outbox : List Event
  pub panels : List Panel
  pub panel_owners : List PanelOwner
  pub categories : List PlanCategory
  pub plans : List Plan
  pub bindings : List Binding
  pub checkpoints : List Checkpoint
  pub usages : List Usage
  pub actors : List Actor
  pub memberships : List Membership
  pub funding_requests : List FundingRequest
  pub orders : List PanelOrder
  pub approvals : List ApprovalRequest
  pub audits : List AuditLog

-- What the handlers take from outside: environment variables, the row that the database gives
-- back first for a query of memberships without an order, and the idempotency key that a client's
-- text spells, which may be one that the code builds itself.
pub record Env : Type 0 where
  pub root_telegram_id : Option ℕ
  pub max_tree_depth : ℕ
  pub approval_ttl_seconds : ℕ
  pub client_key : String → Key
  pub first_row : List Membership → Option Membership

-- the id of a new row
unfoldable pub uid : Action Db ℕ
uid d = (ok d.next_id, record d { next_id = d.next_id + 1 })

-- `audit`. A target whose row has not been flushed has no id yet: `none`, which the source writes
-- as the text "None".
unfoldable pub audit :
    String → String → Option ℕ → Option ℕ → Option ℕ → List (String × Detail) → Action Db (Unit {0})
audit action target_type target_id actor_id organization_id details d = (
  ok tt,
  record d {
    next_id = d.next_id + 1;
    audits =
        record {
          id = d.next_id;
          actor_id = actor_id;
          organization_id = organization_id;
          action = action;
          target_type = target_type;
          target_id = target_id;
          details = details;
        }
        ∷ d.audits;
  },
)

-- a call of the ledger within a session
unfoldable pub on_books : {A : Type 0} → Action Books A → Action Db A
on_books m d = let (r, b) = m d.books in (r, record d { books = b })

-- A call of `enqueue` within a session that has added no event since its last flush, and the flush
-- that follows it.
unfoldable pub on_outbox : ℕ → Topic → ℕ → Payload → Action Db (Unit {0})
unfolding enqueue
on_outbox now topic aggregate payload d = (
  ok tt,
  record d {
    next_id = d.next_id + 1;
    outbox =
        let s =
          (enqueue d.next_id now topic aggregate payload
            (record { rows = d.outbox; added = [] })).1 in
        s.added ++ s.rows;
  },
)

-- A request whose only commit is its last step: an exception closes the session uncommitted.
unfoldable pub request : {A : Type 0} → Action Db A → Action Db A
request m d = let (r, d') = m d in elim r [ ok a ↦ (ok a, d') | err e ↦ (err e, d) ]
