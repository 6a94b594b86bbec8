-- ===== src/Funding.antt =====
-- Requests for credit and who may answer them (src/control_plane/web_api.py: web_funding_request,
-- decide_funding_request, branch_decide_funding, admin_decide_funding).
pub mod Decide
use pasarguard_control_plane.Base.{
  ℕ, ◌+◌, String, str_eq, Bool, true, false, not, ◌&&◌, ◌||◌, Option, some, none, List, [], ◌∷◌,
  ◌==◌, if◌then◌else◌, find, http, ok, err, Action, pure, gets, modify, or_raise, raise_if, ◌>>=◌,
  ◌>>◌,
}
use pasarguard_control_plane.Rbac.{Permission}
use pasarguard_control_plane.Tenancy.{Organization, get_org}
use pasarguard_control_plane.Ledger.{transfer}
use pasarguard_control_plane.Ledger.Rows.{Owner, Key, Kind}
use pasarguard_control_plane.Store.{Db, Env, uid, audit, on_books, request}
use pasarguard_control_plane.Store.Rows.{FundingStatus, FundingRequest, Detail}
use pasarguard_control_plane.Identity.{manager, membership_for, require_root}

-- The new request's own id is not in its audit row: it has none before the flush.
unfoldable pub web_funding_request : Env → ℕ → ℕ → Action Db FundingRequest
web_funding_request env telegram_id amount = request (do
  caller ← manager env telegram_id Permission.request_funding
  id ← uid
  let row : FundingRequest = record {
    id = id;
    organization_id = caller.organization.id;
    actor_id = caller.actor.id;
    amount_irr = amount;
    status = FundingStatus.pending;
    decided_by = none;
    decided_at = none;
  }
  modify (λ d. record d { funding_requests = row ∷ d.funding_requests })
  audit "funding_request.create" "funding_request" none (some caller.actor.id)
      (some caller.organization.id) (("amount_irr", Detail.num amount) ∷ [])
  pure row)

abbrev pub is_pending : FundingStatus → Bool
is_pending FundingStatus.pending = true
is_pending _ = false

-- the row of a request replaced
unfoldable pub put_request : FundingRequest → List FundingRequest → List FundingRequest
put_request r [] = []
put_request r (x ∷ rows) =
    let rest = put_request r rows in if x.id == r.id then r ∷ rows else x ∷ rest

abbrev pub parent_is : Option ℕ → ℕ → Bool
parent_is none branch = false
parent_is (some p) branch = p == branch

abbrev pub is_rootless : Option ℕ → Bool
is_rootless none = true
is_rootless (some _) = false

-- the direct parent of an organization decides, and the root for one without a parent
abbrev pub may_decide : ℕ → Bool → Organization → Bool
may_decide branch allow_rootless child =
    parent_is child.parent_id branch || (allow_rootless && is_rootless child.parent_id)

-- the guards of a decision
unfoldable pub decidable_request : ℕ → ℕ → Bool → Action Db FundingRequest
decidable_request branch request_id allow_rootless = do
  r ← gets (λ d. find (λ r. r.id == request_id) d.funding_requests) >>= λ r. or_raise r (http 404)
  raise_if (not (is_pending r.status)) (http 409)
  child ←
      gets (λ d. get_org r.organization_id d.tenants.organizations) >>= λ o. or_raise o (http 404)
  raise_if (not (may_decide branch allow_rootless child)) (http 403)
  pure r

-- an approval pays out of SYSTEM, without a credit check
unfoldable pub pay_request : ℕ → FundingRequest → Action Db (Unit {0})
pay_request actor r = do
  orgs ← gets (λ d. d.tenants.organizations)
  on_books (
      transfer orgs Owner.system (Owner.org r.organization_id) r.amount_irr
        (Key.funding_request r.id) Kind.fund (some r.id) false (some actor))
  pure tt

abbrev pub decided : ℕ → ℕ → FundingStatus → FundingRequest → FundingRequest
decided now actor status r = record r {
  status = status;
  decided_by = some actor;
  decided_at = some now;
}

abbrev pub decision_action : Bool → String
decision_action true = "funding_request.approve"
decision_action false = "funding_request.reject"

unfoldable pub record_decision : ℕ → ℕ → Bool → FundingRequest → Action Db FundingRequest
unfolding put_request
record_decision now actor approves r =
    let row =
      decided now actor (if approves then FundingStatus.approved else FundingStatus.rejected) r in
    do
      modify (λ d. record d { funding_requests = put_request row d.funding_requests })
      audit (decision_action approves) "funding_request" (some r.id) (some actor)
          (some r.organization_id)
          (("amount_irr", Detail.num r.amount_irr) ∷ ("decided_by", Detail.num actor) ∷ [])
      pure row

-- both decisions behind the guards
unfoldable pub carry_out : ℕ → ℕ → Bool → FundingRequest → Action Db FundingRequest
unfolding pay_request record_decision
carry_out now actor true r = pay_request actor r >> record_decision now actor true r
carry_out now actor false r = record_decision now actor false r

unfoldable pub decide_funding_request : ℕ → ℕ → ℕ → ℕ → String → Bool → Action Db FundingRequest
unfolding decidable_request carry_out
decide_funding_request now actor branch request_id decision allow_rootless = do
  raise_if (not (str_eq decision "approve" || str_eq decision "reject")) (http 422)
  r ← decidable_request branch request_id allow_rootless
  carry_out now actor (str_eq decision "approve") r

unfoldable pub branch_decide_funding : Env → ℕ → ℕ → ℕ → String → Action Db FundingRequest
unfolding decide_funding_request
branch_decide_funding env now telegram_id request_id decision = request (do
  caller ← manager env telegram_id Permission.decide_funding
  decide_funding_request now caller.actor.id caller.organization.id request_id decision false)

unfoldable pub admin_decide_funding : Env → ℕ → ℕ → ℕ → String → Action Db FundingRequest
unfolding decide_funding_request
admin_decide_funding env now telegram_id request_id decision = request (do
  caller ← membership_for env telegram_id
  require_root env telegram_id
  decide_funding_request now caller.actor.id caller.organization.id request_id decision true)
