-- ===== src/Usage.antt =====
-- Metering, src/control_plane/app.py: observe, record_hold; and the endpoints of
-- src/control_plane/api.py that call it, usage and usage_batch.
pub mod Settle
pub mod Requests
use pasarguard_control_plane.Base.{
  ℕ, zero, suc, ◌+◌, ◌-◌, Bool, true, false, Option, some, none, List, [], ◌∷◌, ◌==◌, ltb, leb,
  if◌then◌else◌, find, update_where, Error, insufficient_credit, binding_not_found, billing_hold,
  hierarchy_cycle, http, Result, ok, err, Action, pure, raise, follow, modify, gets, ◌>>=◌, ◌>>◌, ℤ,
  pos, get_or,
}
use pasarguard_control_plane.Domain.{Edge, Settlement, cascade, coefficient_scale}
use pasarguard_control_plane.Tenancy.{Organization, Tenants, edges}
use pasarguard_control_plane.Ledger.{transfer}
use pasarguard_control_plane.Ledger.Rows.{Owner, Key, Kind, Books, Transaction}
use pasarguard_control_plane.Outbox.Rows.{Topic, Payload}
use pasarguard_control_plane.Store.{Db, on_books, on_outbox}
use pasarguard_control_plane.Store.Rows.{Panel, Binding, Checkpoint, Usage, UsageStatus}

pub record UsageIn : Type 0 where
  pub binding_id : ℕ
  pub lifetime_bytes : ℕ
  pub observed_at : ℕ

-- The rows that observe reads and writes besides the ledger: the checkpoint of a binding.
unfoldable pub find_checkpoint : ℕ → List Checkpoint → Option Checkpoint
find_checkpoint b = find (λ c. c.binding_id == b)

pub put_checkpoint : Checkpoint → List Checkpoint → List Checkpoint
put_checkpoint c = update_where (λ x. x.binding_id == c.binding_id) (λ _. c)

-- `scalar(...) or 1`: a missing panel and a zero coefficient both count as one
unfoldable pub coefficient_of : ℕ → List Panel → ℕ
coefficient_of p panels =
    let stored : ℕ = elim (find (λ x. x.id == p) panels) [
      | none ↦ 0
      | some x ↦ x.usage_coefficient
    ] in
    if stored == 0 then coefficient_scale else stored

-- The walk never runs out of its fuel (Tenancy.Walk), so the first case is not met.
unfoldable pub edges_of : Option (Result (List Edge)) → Result (List Edge)
edges_of none = err hierarchy_cycle
edges_of (some r) = r

-- the next round of the loop, or the exception as its handler raises it again
abbrev pub after_charge :
    (Books → Result (Unit {0}) × Books)
    → (Error → Error)
    → Result Transaction × Books
    → Result (Unit {0}) × Books
after_charge next reraise (ok _, books) = next books
after_charge next reraise (err e, books) = (err (reraise e), books)

module _ (orgs : List Organization) (b : Binding) (from to : ℕ) where
  -- a ValueError of `transfer`, seen from the loop
  pub as_hold : ℕ → Error → Error
  as_hold pending Error.insufficient_credit = billing_hold b.id b.organization_id pending
  as_hold pending e = e

  -- The loop over the settlements, with the amount settled so far.
  pub charge : ℕ → List Settlement → Action Books (Unit {0})
  unfolding as_hold
  charge pending [] books = (ok tt, books)
  charge pending (x ∷ rows) books =
      after_charge (charge (pending + x.amount_irr) rows) (as_hold pending) (
        transfer orgs (Owner.org x.child_id) (Owner.org x.parent_id) x.amount_irr
          (Key.usage b.id from to x.child_id) Kind.usage (some b.id) true none books)

module _ (reset_confirm_readings now : ℕ) (data_in : UsageIn) where
  abbrev usage_row : ℕ → UsageStatus → Usage
  usage_row delta status = record {
    binding_id = data_in.binding_id;
    lifetime_bytes = data_in.lifetime_bytes;
    delta_bytes = delta;
    status = status;
    observed_at = data_in.observed_at;
  }

  pub add_usage : ℕ → UsageStatus → Action Db (Unit {0})
  add_usage delta status = modify (λ d. record d { usages = usage_row delta status ∷ d.usages })

  -- the checkpoint at the new reading
  pub advance : Action Db (Unit {0})
  unfolding put_checkpoint
  advance = modify (λ d. record d {
    checkpoints =
        put_checkpoint
          (record {
            binding_id = data_in.binding_id;
            lifetime_bytes = data_in.lifetime_bytes;
            observed_at = data_in.observed_at;
            anomaly_count = 0;
          })
          d.checkpoints;
  })

  -- no checkpoint yet: the reading becomes the baseline
  pub first_reading : Action Db (List Settlement)
  unfolding add_usage
  first_reading = do
    modify (λ d. record d {
      checkpoints =
          record {
            binding_id = data_in.binding_id;
            lifetime_bytes = data_in.lifetime_bytes;
            observed_at = data_in.observed_at;
            anomaly_count = 0;
          }
          ∷ d.checkpoints;
    })
    add_usage 0 UsageStatus.baseline
    pure []

  -- a reading below the checkpoint is counted
  pub regressed : Checkpoint → Db → Db
  unfolding put_checkpoint
  regressed cp d = record d {
    checkpoints = put_checkpoint (record cp { anomaly_count = cp.anomaly_count + 1 }) d.checkpoints;
    usages = usage_row 0 UsageStatus.regression ∷ d.usages;
  }

  -- and becomes the new baseline
  pub take_reset : Binding → Action Db (Unit {0})
  unfolding advance add_usage
  take_reset b = do
    advance
    add_usage 0 UsageStatus.reset_baseline
    on_outbox now Topic.usage_reset_detected b.id
        (Payload.reset b.organization_id data_in.lifetime_bytes)

  -- after enough of them
  pub reset_or_not : Binding → Checkpoint → Action Db (Unit {0})
  unfolding take_reset
  reset_or_not b cp =
      if leb reset_confirm_readings (cp.anomaly_count + 1) then take_reset b else pure tt

  pub regress : Binding → Checkpoint → Action Db (List Settlement)
  unfolding regressed reset_or_not
  regress b cp = do modify (regressed cp); reset_or_not b cp; pure []

  pub settled_tail : Checkpoint → List Settlement → Action Db (List Settlement)
  unfolding advance add_usage
  settled_tail cp rows = do
    advance
    add_usage (data_in.lifetime_bytes - cp.lifetime_bytes) UsageStatus.accepted
    pure rows

  -- the charges of the rows, and then the new checkpoint
  pub settle : Binding → Checkpoint → List Settlement → Action Db (List Settlement)
  unfolding charge settled_tail
  settle b cp rows = do
    orgs ← gets (λ d. d.tenants.organizations)
    on_books (charge orgs b cp.lifetime_bytes data_in.lifetime_bytes 0 rows)
    settled_tail cp rows

  -- the settlements of a reading at or above the checkpoint, priced over the edges to the root
  unfoldable pub priced : Binding → Checkpoint → Db → Result (List Settlement)
  unfolding coefficient_of edges_of
  priced b cp d = elim (edges_of (edges d.tenants b.organization_id)) [
    | err e ↦ err e
    | ok es ↦
        cascade (pos (data_in.lifetime_bytes - cp.lifetime_bytes)) es
          (pos (coefficient_of b.panel_id d.panels))
  ]

  pub accept : Binding → Checkpoint → Action Db (List Settlement)
  unfolding priced settle
  accept b cp d = follow (settle b cp) (priced b cp d, d)

  unfoldable pub observe : Action Db (List Settlement)
  unfolding find_checkpoint first_reading regress accept
  observe d = elim (find (λ x. x.id == data_in.binding_id) d.bindings) [
    | none ↦ (err binding_not_found, d)
    | some b ↦ elim (find_checkpoint b.id d.checkpoints) [
      | none ↦ first_reading d
      | some cp ↦
          if ltb data_in.lifetime_bytes cp.lifetime_bytes then regress b cp d else accept b cp d
    ]
  ]

pub record_hold : ℕ → ℕ → ℕ → ℕ → Action Db (Unit {0})
record_hold now binding organization amount =
    on_outbox now Topic.billing_hold_required binding (Payload.hold organization amount)

module _ (reset_confirm_readings now : ℕ) where
  -- POST /v1/internal/usage: what the handler does with the end of `observe`, `d` being the state
  -- that a rollback goes back to
  pub end_usage : Db → Result (List Settlement) × Db → Result (List Settlement) × Db
  unfolding record_hold
  end_usage d (ok rows, d') = (ok rows, d')
  end_usage d (err (Error.billing_hold b o amount), d') =
      (err (http 402), (record_hold now b o amount d).1)
  end_usage d (err _, d') = (err (http 409), d)

  unfoldable pub usage : UsageIn → Action Db (List Settlement)
  unfolding end_usage
  usage x d = end_usage d (observe reset_confirm_readings now x d)

  -- POST /v1/internal/usage/batch: the loop, with the counts of results and holds so far. An
  -- exception other than BillingHold leaves the loop. What one observation adds is taken as flushed
  -- before the next, which is exact where the observations are of distinct bindings: the session has
  -- autoflush off, and would not see a checkpoint or an event of the same binding.
  pub batch_step : Result (List Settlement) × Db → ℕ × ℕ → Result (ℕ × ℕ) × Db
  unfolding record_hold
  batch_step (ok rows, d') (done, held) = (ok (done + 1, held), d')
  batch_step (err (Error.billing_hold b o amount), d') (done, held) =
      (ok (done, held + 1), (record_hold now b o amount d').1)
  batch_step (err e, d') counts = (err e, d')

  pub batch : List UsageIn → ℕ × ℕ → Action Db (ℕ × ℕ)
  unfolding batch_step
  batch [] counts d = (ok counts, d)
  batch (x ∷ observations) counts d =
      follow (batch observations) (batch_step (observe reset_confirm_readings now x d) counts)

  -- the end of the request: both answers behind a commit, and an exception behind a rollback
  pub end_batch : Db → Result (ℕ × ℕ) × Db → Result (ℕ × ℕ) × Db
  end_batch d (ok (zero, suc held), d') = (err (http 402), d')
  end_batch d (ok counts, d') = (ok counts, d')
  end_batch d (err e, d') = (err e, d)

  unfoldable pub usage_batch : List UsageIn → Action Db (ℕ × ℕ)
  unfolding batch end_batch
  usage_batch observations d = end_batch d (batch observations (0, 0) d)
