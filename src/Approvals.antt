-- ===== src/Approvals.antt =====
-- Wallet adjustments and their approval (src/control_plane/web_api.py: locked_pending_approval,
-- apply_wallet_adjustment, request_adjustment, decide_approval).
pub mod Adjust
use pasarguard_control_plane.Base.{
  ℕ, zero, suc, ◌+◌, String, str_eq, Bool, true, false, not, ◌&&◌, ◌||◌, Option, some, none, List,
  [], ◌∷◌, ◌==◌, leb, if◌then◌else◌, find, http, Result, ok, err, Action, pure, gets, modify,
  or_raise, raise_if, ◌>>=◌, ◌>>◌, ℤ, pos_part, neg_part,
}
use pasarguard_control_plane.Rbac.{Permission, may}
use pasarguard_control_plane.Tenancy.{Organization, get_org}
use pasarguard_control_plane.Ledger.{transfer}
use pasarguard_control_plane.Ledger.Rows.{Owner, Key, Kind, Books, Transaction}
use pasarguard_control_plane.Outbox.Rows.{Topic, Payload}
use pasarguard_control_plane.Store.{Db, Env, uid, audit, on_books, on_outbox, request}
use pasarguard_control_plane.Store.Rows.{ApprovalStatus, ApprovalRequest, Detail}
use pasarguard_control_plane.Identity.{Caller, manager, membership_for, require_root}

abbrev pub is_pending : ApprovalStatus → Bool
is_pending ApprovalStatus.pending = true
is_pending _ = false

-- the row of a request replaced
unfoldable pub put_row : ApprovalRequest → List ApprovalRequest → List ApprovalRequest
put_row a [] = []
put_row a (x ∷ rows) = let rest = put_row a rows in if x.id == a.id then a ∷ rows else x ∷ rest

unfoldable pub put_approval : ApprovalRequest → Action Db (Unit {0})
unfolding put_row
put_approval a d = (ok tt, record d { approvals = put_row a d.approvals })

-- A request past its time is marked and committed before the 410 leaves.
unfoldable pub locked_pending_approval : ℕ → ℕ → Action Db ApprovalRequest
unfolding put_approval
locked_pending_approval approval_id now = do
  a ← gets (λ d. find (λ a. a.id == approval_id) d.approvals) >>= λ a. or_raise a (http 404)
  raise_if (not (is_pending a.status)) (http 409)
  (if leb a.expires_at now
      then (put_approval (record a { status = ApprovalStatus.expired; decided_at = some now })
          >> λ d. (err (http 410), d))
      else pure a)

-- `except ValueError`: a refusal of the ledger leaves as a 409
abbrev pub as_conflict : Result Transaction × Books → Result (Unit {0}) × Books
as_conflict (ok t, b) = (ok tt, b)
as_conflict (err e, b) = (err (http 409), b)

-- the posting of a correction: a charge is checked against the credit, a gift is not
unfoldable pub adjust : List Organization → ℕ → ℤ → ℕ → ℕ → Action Books Transaction
adjust orgs organization (ℤ.pos zero) approval actor =
    transfer orgs (Owner.org organization) Owner.system 0 (Key.approval approval) Kind.adjustment
      (some approval) true (some actor)
adjust orgs organization (ℤ.pos (suc n)) approval actor =
    transfer orgs Owner.system (Owner.org organization) (suc n) (Key.approval approval)
      Kind.adjustment (some approval) false (some actor)
adjust orgs organization (ℤ.negsuc n) approval actor =
    transfer orgs (Owner.org organization) Owner.system (suc n) (Key.approval approval)
      Kind.adjustment (some approval) true (some actor)

unfoldable pub apply_wallet_adjustment : ApprovalRequest → ℕ → Action Db (Unit {0})
unfolding adjust
apply_wallet_adjustment a actor = do
  organization ←
      gets (λ d. get_org a.target_id d.tenants.organizations) >>= λ o. or_raise o (http 404)
  orgs ← gets (λ d. d.tenants.organizations)
  on_books (λ b. as_conflict (adjust orgs organization.id a.amount_irr a.id actor b))
  audit "adjustment.apply" "organization" (some organization.id) (some actor) (some organization.id)
      (("amount_irr", Detail.signed a.amount_irr)
        ∷ ("note", Detail.text a.note)
        ∷ ("approval_id", Detail.num a.id)
        ∷ [])

abbrev pub adjust_action : String
adjust_action = "wallet.adjust"

abbrev pub parent_is : Option ℕ → ℕ → Bool
parent_is none branch = false
parent_is (some p) branch = p == branch

abbrev pub is_root_id : Option ℕ → ℕ → Bool
is_root_id none telegram_id = false
is_root_id (some r) telegram_id = telegram_id == r

-- a new request, waiting
unfoldable pub pending_adjustment : Env → ℕ → ℕ → Option ℕ → ℕ → ℤ → String → ℕ → ApprovalRequest
pending_adjustment env now requester approver target amount note id = record {
  id = id;
  requester_id = requester;
  approver_id = approver;
  action = adjust_action;
  target_id = target;
  amount_irr = amount;
  note = note;
  status = ApprovalStatus.pending;
  expires_at = now + env.approval_ttl_seconds;
  decided_at = none;
  decision_note = none;
}

unfoldable pub add_approval : ApprovalRequest → Action Db (Unit {0})
add_approval a = modify (λ d. record d { approvals = a ∷ d.approvals })

-- the root applies its own request at once
unfoldable pub apply_directly : Env → ℕ → Caller → ℕ → ℤ → String → Action Db ApprovalRequest
unfolding pending_adjustment add_approval apply_wallet_adjustment put_approval
apply_directly env now caller target amount note = do
  id ← uid
  let a = pending_adjustment env now caller.actor.id (some caller.actor.id) target amount note id
  let done : ApprovalRequest = record a {
    status = ApprovalStatus.executed;
    decided_at = some now;
    decision_note = some note;
  }
  add_approval a
  apply_wallet_adjustment a caller.actor.id
  put_approval done
  pure done

unfoldable pub ask_for : Env → ℕ → Caller → ℕ → ℤ → String → Action Db ApprovalRequest
unfolding pending_adjustment add_approval
ask_for env now caller target amount note = do
  id ← uid
  let a = pending_adjustment env now caller.actor.id none target amount note id
  add_approval a
  audit "adjustment.request" "organization" (some target) (some caller.actor.id)
      (some caller.organization.id)
      (("amount_irr", Detail.signed amount) ∷ ("note", Detail.text note) ∷ [])
  pure a

unfoldable pub request_adjustment : Env → ℕ → ℕ → ℕ → ℤ → String → Action Db ApprovalRequest
unfolding apply_directly ask_for
request_adjustment env now telegram_id organization_id amount note = request (do
  caller ← manager env telegram_id Permission.request_adjustment
  target ←
      gets (λ d. get_org organization_id d.tenants.organizations) >>= λ o. or_raise o (http 404)
  raise_if
      (not
        (caller.organization.id == target.id || parent_is target.parent_id caller.organization.id))
      (http 403)
  (if is_root_id env.root_telegram_id telegram_id
      then apply_directly env now caller target.id amount note
      else ask_for env now caller target.id amount note))

abbrev pub closed : ℕ → ℕ → ApprovalStatus → String → ApprovalRequest → ApprovalRequest
closed now actor status note a = record a {
  status = status;
  approver_id = some actor;
  decided_at = some now;
  decision_note = some note;
}

-- `APPROVAL_APPLICATORS`, which has one entry
unfoldable pub apply_approval : ApprovalRequest → ℕ → Action Db (Unit {0})
unfolding apply_wallet_adjustment
apply_approval a actor =
    if str_eq a.action adjust_action then apply_wallet_adjustment a actor else λ d.
    (err (http 422), d)

unfoldable pub finish_decision : ℕ → ApprovalRequest → String → Bool → Action Db ApprovalRequest
unfolding put_approval
finish_decision actor a action executed = do
  put_approval a
  audit action "approval_request" (some a.id) (some actor) none (
      ("action", Detail.text a.action)
      ∷ ("target_id", Detail.num a.target_id)
      ∷ ("payload", Detail.payload a.amount_irr a.note)
      ∷ [])
  on_outbox (decided_time a.decided_at) Topic.approval_granted a.id (Payload.approval executed)
  pure a
  where
    decided_time : Option ℕ → ℕ
    decided_time none = 0
    decided_time (some t) = t

-- what follows the lock
unfoldable pub conclude : ℕ → ℕ → Bool → ApprovalRequest → Action Db ApprovalRequest
unfolding apply_approval finish_decision
conclude now actor true a =
    apply_approval a actor
    >> finish_decision actor
        (closed now actor ApprovalStatus.executed "approved by system administrator" a)
        "approval.approve" true
conclude now actor false a =
    finish_decision actor
      (closed now actor ApprovalStatus.rejected "rejected by system administrator" a)
      "approval.reject" false

-- The session commits at an expiry and at the end: in between a raise takes back what `conclude`
-- has done.
unfoldable pub decide_approval : Env → ℕ → ℕ → ℕ → String → Action Db ApprovalRequest
unfolding locked_pending_approval conclude
decide_approval env now telegram_id approval_id decision = do
  caller ← membership_for env telegram_id
  require_root env telegram_id
  raise_if (not (str_eq decision "approve" || str_eq decision "reject")) (http 422)
  a ← locked_pending_approval approval_id now
  request (conclude now caller.actor.id (str_eq decision "approve") a)
