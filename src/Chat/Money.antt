-- ===== src/Chat/Money.antt =====
-- Decisions on money and new resellers (src/control_plane/telegram_consumer.py: decide_funding,
-- decide_approval, create_reseller).
use pasarguard_control_plane.Base.{
  ℕ, String, str_eq, Bool, true, false, not, Option, some, none, [], ◌∷◌, ◌==◌, if◌then◌else◌, find,
  permission_error, value_error, Action, pure, gets, lift, modify, or_raise, raise_if, ◌>>=◌, ◌>>◌,
}
use pasarguard_control_plane.Rbac.{Permission}
use pasarguard_control_plane.Tenancy.{get_org}
use pasarguard_control_plane.Outbox.Rows.{Topic, Payload}
use pasarguard_control_plane.Store.{Db, Env, audit, on_outbox, request}
use pasarguard_control_plane.Store.Rows.{
  FundingStatus, FundingRequest, ApprovalStatus, ApprovalRequest, Detail,
}
use pasarguard_control_plane.Identity.{create_requester}
use pasarguard_control_plane.Network.{slug_taken, insert_child, add_member}
use pasarguard_control_plane.Funding.{
  is_pending, parent_is, put_request, pay_request, decided, decision_action,
}
use pasarguard_control_plane.Approvals.{
  adjust_action, apply_wallet_adjustment, locked_pending_approval, put_approval,
}
use pasarguard_control_plane.Chat.Context.{Context, permitted}
use pasarguard_control_plane.Chat.Digits.{Script, int}
use pasarguard_control_plane.Chat.Deals.{telegram_of, actor_at}

-- What a press on a funding request comes to: it was decided before, or it is decided now and its
-- requester, if known, is told.
pub data FundingReply : Type 0 where
  checked_before : FundingReply
  decided_now : Bool → Option ℕ → FundingReply

unfoldable pub record_funding : ℕ → ℕ → Bool → FundingRequest → Action Db FundingReply
unfolding put_request
record_funding now actor approves r = do
  modify (λ d. record d {
    funding_requests =
        put_request
          (decided now actor (if approves then FundingStatus.approved else FundingStatus.rejected)
            r)
          d.funding_requests;
  })
  audit (decision_action approves) "funding_request" (some r.id) (some actor)
      (some r.organization_id) (("amount_irr", Detail.num r.amount_irr) ∷ [])
  gets (λ d. FundingReply.decided_now approves (telegram_of (actor_at r.actor_id d)))

unfoldable pub pay_if : Bool → ℕ → FundingRequest → Action Db (Unit {0})
unfolding pay_request
pay_if true actor r = pay_request actor r
pay_if false actor r = pure tt

-- only the direct parent of the organization decides
unfoldable pub settle_funding : ℕ → Context → FundingRequest → Bool → Action Db FundingReply
unfolding record_funding pay_if
settle_funding now ctx r approves = do
  child ← gets (λ d. get_org r.organization_id d.tenants.organizations) >>= λ o.
      or_raise o permission_error
  raise_if (not (parent_is child.parent_id ctx.organization.id)) permission_error
  pay_if approves ctx.actor_id r
  record_funding now ctx.actor_id approves r

unfoldable pub decide_funding : Env → ℕ → ℕ → ℕ → Bool → Action Db FundingReply
unfolding permitted settle_funding
decide_funding env now chat request_id approves = request (do
  ctx ← permitted env chat Permission.decide_funding
  (λ d. elim (find (λ r. r.id == request_id) d.funding_requests) [
    | none ↦ pure FundingReply.checked_before d
    | some r ↦ elim (is_pending r.status) [
      | true ↦ settle_funding now ctx r approves d
      | false ↦ pure FundingReply.checked_before d
    ]
  ]))

abbrev pub approval_action : Bool → String
approval_action true = "approval.approve"
approval_action false = "approval.reject"

abbrev pub ended : ℕ → ℕ → Bool → ApprovalRequest → ApprovalRequest
ended now actor approves a = record a {
  status = if approves then ApprovalStatus.executed else ApprovalStatus.rejected;
  approver_id = some actor;
  decided_at = some now;
}

unfoldable pub apply_if : Bool → ApprovalRequest → ℕ → Action Db (Unit {0})
unfolding apply_wallet_adjustment
apply_if true a actor =
    raise_if (not (str_eq a.action adjust_action)) permission_error
    >> apply_wallet_adjustment a actor
apply_if false a actor = pure tt

-- what follows the lock
unfoldable pub end_approval : ℕ → Context → ApprovalRequest → Bool → Action Db (Unit {0})
unfolding apply_if put_approval
end_approval now ctx a approves = do
  apply_if approves a ctx.actor_id
  put_approval (ended now ctx.actor_id approves a)
  audit (approval_action approves) "approval_request" (some a.id) (some ctx.actor_id)
      (some ctx.organization.id)
      (("action", Detail.text a.action) ∷ ("target_id", Detail.num a.target_id) ∷ [])
  on_outbox now Topic.approval_granted a.id (Payload.approval approves)

-- A request past its time is marked and committed before the 410 leaves, and so do the other
-- HTTP errors of the lock and of the adjustment: this handler does not turn them into refusals.
unfoldable pub decide_approval : Env → ℕ → ℕ → ℕ → Bool → Action Db (Unit {0})
unfolding permitted locked_pending_approval end_approval
decide_approval env now chat approval_id approves = do
  ctx ← permitted env chat Permission.decide_adjustment
  a ← locked_pending_approval approval_id now
  request (end_approval now ctx a approves)

-- the answers of the dialogue for a new reseller, as texts
pub record ResellerIn : Type 0 where
  pub name : String
  pub slug : String
  pub telegram_id : String
  pub price : String
  pub credit : String

unfoldable pub create_reseller : Env → Script → ℕ → ResellerIn → Action Db String
unfolding permitted
create_reseller env script chat x = request (do
  ctx ← permitted env chat Permission.manage_resellers
  taken ← gets (slug_taken x.slug)
  raise_if taken value_error
  credit ← lift (int script x.credit)
  price ← lift (int script x.price)
  child ←
      insert_child (record { name = x.name; slug = x.slug; credit_limit_irr = credit })
        ctx.organization.id price
  telegram_id ← lift (int script x.telegram_id)
  actor ← create_requester telegram_id x.name
  add_member child actor.id "reseller_admin"
  pure x.name)
