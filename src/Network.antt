-- ===== src/Network.antt =====
-- How organizations come to be, are linked to people, funded and suspended: the handlers of
-- src/control_plane/web_api.py and src/control_plane/api.py that create an organization, with
-- bind_actor, binding, fund and admin_set_reseller_status.
use pasarguard_control_plane.Base.{
  ℕ, String, str_eq, codes, length, Bool, false, not, ◌||◌, ◌&&◌, Option, some, none, [], ◌∷◌, ◌++◌,
  ◌==◌, ltb, if◌then◌else◌, any, is_some, update_where, http, ok, Action, pure, gets, modify,
  or_raise, raise_if, ◌>>=◌, ◌>>◌,
}
use pasarguard_control_plane.Rbac.{Permission}
use pasarguard_control_plane.Tenancy.{
  OrgStatus, Organization, get_org, assert_depth_allowed, add_child, add_root,
}
use pasarguard_control_plane.Ledger.{account, transfer}
use pasarguard_control_plane.Ledger.Rows.{Owner, Kind, Transaction}
use pasarguard_control_plane.Store.{Db, Env, uid, audit, on_books, request}
use pasarguard_control_plane.Store.Rows.{Status, is_active, Binding, Detail}
use pasarguard_control_plane.Identity.{
  Identity, manager, membership_for, require_root, find_actor, create_requester,
}

pub record OrgIn : Type 0 where
  pub name : String
  pub slug : String
  pub credit_limit_irr : ℕ

unfoldable pub organization_row : ℕ → Option ℕ → OrgIn → Organization
organization_row id parent x = record {
  id = id;
  parent_id = parent;
  name = x.name;
  slug = x.slug;
  status = OrgStatus.active;
  credit_limit_irr = x.credit_limit_irr;
  max_depth = 5;
}

abbrev pub slug_taken : String → Db → Bool
slug_taken slug d = any (λ o. str_eq o.slug slug) d.tenants.organizations

-- the organization, its closure rows, its contract and its wallet
unfoldable pub insert_child : OrgIn → ℕ → ℕ → Action Db ℕ
unfolding organization_row
insert_child x parent price = do
  id ← uid
  modify (λ d. record d {
    tenants = add_child (organization_row id (some parent) x) parent price d.tenants;
  })
  on_books (account (Owner.org id))
  pure id

unfoldable pub insert_root : OrgIn → Action Db ℕ
unfolding organization_row
insert_root x = do
  id ← uid
  modify (λ d. record d { tenants = add_root (organization_row id none x) d.tenants })
  on_books (account (Owner.org id))
  pure id

-- the memberships stand in the order of their creation
abbrev pub add_member : ℕ → ℕ → String → Action Db (Unit {0})
add_member organization actor role = modify (λ d. record d {
  memberships =
      d.memberships
      ++ record {
        organization_id = organization;
        actor_id = actor;
        role = role;
        status = Status.active;
      }
        ∷ [];
})

unfoldable pub web_create_child : Env → ℕ → OrgIn → ℕ → Action Db ℕ
unfolding insert_child
web_create_child env telegram_id x price = request (do
  caller ← manager env telegram_id Permission.manage_resellers
  taken ← gets (slug_taken x.slug)
  raise_if taken (http 409)
  (λ d. (assert_depth_allowed env.max_tree_depth d.tenants caller.organization, d))
  child ← insert_child x caller.organization.id price
  audit "organization.create" "organization" (some child) (some caller.actor.id)
      (some caller.organization.id)
      (("slug", Detail.text x.slug) ∷ ("price_per_gib_irr", Detail.num price) ∷ [])
  pure child)

-- the actor of a new reseller: a known one is made active, and keeps a name that it has
unfoldable pub linked_actor : ℕ → String → Action Db ℕ
unfolding find_actor
linked_actor telegram_id name d = elim (find_actor telegram_id d.actors) [
  | none ↦ (do a ← create_requester telegram_id name; pure a.id) d
  | some a ↦ (
    ok a.id,
    record d {
      actors =
          update_where (λ x. x.id == a.id)
            (λ x. record x {
              status = Status.active;
              display_name = if str_eq x.display_name "" then name else x.display_name;
            })
            d.actors;
    },
  )
]

-- a Telegram account with an active membership somewhere
unfoldable pub already_linked : ℕ → Db → Bool
unfolding find_actor
already_linked telegram_id d = elim (find_actor telegram_id d.actors) [
  | none ↦ false
  | some a ↦ any (λ m. m.actor_id == a.id && is_active m.status) d.memberships
]

unfoldable pub admin_create_reseller : Env → ℕ → OrgIn → ℕ → ℕ → Action Db ℕ
unfolding insert_child linked_actor already_linked
admin_create_reseller env telegram_id x owner_telegram_id price = request (do
  caller ← membership_for env telegram_id
  require_root env telegram_id
  (λ d. (assert_depth_allowed env.max_tree_depth d.tenants caller.organization, d))
  taken ← gets (slug_taken x.slug)
  raise_if taken (http 409)
  linked ← gets (already_linked owner_telegram_id)
  raise_if linked (http 409)
  child ← insert_child x caller.organization.id price
  owner ← linked_actor owner_telegram_id x.name
  add_member child owner "reseller_admin"
  audit "reseller.create" "organization" (some child) (some caller.actor.id) (some child) (
      ("parent_id", Detail.num caller.organization.id)
      ∷ ("slug", Detail.text x.slug)
      ∷ ("telegram_id", Detail.num owner_telegram_id)
      ∷ ("price_per_gib_irr", Detail.num price)
      ∷ ("credit_limit_irr", Detail.num x.credit_limit_irr)
      ∷ [])
  pure child)

abbrev pub child_of : ℕ → Organization → Bool
child_of parent o = elim o.parent_id [ none ↦ false | some p ↦ p == parent ]

-- suspended if it was active, and active otherwise
abbrev pub toggled : OrgStatus → OrgStatus
toggled OrgStatus.active = OrgStatus.suspended
toggled _ = OrgStatus.active

abbrev pub toggle_action : OrgStatus → String
toggle_action OrgStatus.suspended = "reseller.suspend"
toggle_action _ = "reseller.activate"

abbrev pub set_status : ℕ → OrgStatus → Action Db (Unit {0})
set_status id status = modify (λ d. record d {
  tenants = record d.tenants {
    organizations =
        update_where (λ o. o.id == id) (λ o. record o { status = status }) d.tenants.organizations;
  };
})

unfoldable pub admin_set_reseller_status : Env → ℕ → ℕ → Action Db OrgStatus
admin_set_reseller_status env telegram_id organization_id = request (do
  caller ← membership_for env telegram_id
  require_root env telegram_id
  child ← gets (λ d. get_org organization_id d.tenants.organizations) >>= λ o. or_raise o (http 404)
  raise_if (not (child_of caller.organization.id child)) (http 404)
  set_status child.id (toggled child.status)
  audit (toggle_action (toggled child.status)) "organization" (some child.id) (some caller.actor.id)
      (some child.id) []
  pure (toggled child.status))

-- `create_org`: a root without a parent, or a child with a price
unfoldable pub create_org : Env → OrgIn → Option ℕ → Option ℕ → Action Db ℕ
unfolding insert_child insert_root
create_org env x none price = request (do
  taken ← gets (slug_taken x.slug)
  raise_if taken (http 409)
  o ← insert_root x
  audit "organization.create" "organization" (some o) none (some o)
      (("slug", Detail.text x.slug) ∷ ("parent_id", Detail.null) ∷ [])
  pure o)
create_org env x (some parent_id) price = request (do
  taken ← gets (slug_taken x.slug)
  raise_if taken (http 409)
  parent ← gets (λ d. get_org parent_id d.tenants.organizations) >>= λ o. or_raise o (http 404)
  p ← or_raise price (http 422)
  (λ d. (assert_depth_allowed env.max_tree_depth d.tenants parent, d))
  o ← insert_child x parent.id p
  audit "organization.create" "organization" (some o) none (some o)
      (("slug", Detail.text x.slug) ∷ ("parent_id", Detail.num parent.id) ∷ [])
  pure o)

unfoldable pub fund : Env → ℕ → ℕ → String → Action Db Transaction
fund env org_id amount key = request (do
  known ← gets (λ d. get_org org_id d.tenants.organizations)
  raise_if (not (is_some known)) (http 404)
  orgs ← gets (λ d. d.tenants.organizations)
  tx ← on_books (
      transfer orgs Owner.system (Owner.org org_id) amount (env.client_key key) Kind.fund
        (some org_id) false none)
  audit "wallet.fund" "transaction" (some tx.id) none (some org_id)
      (("amount_irr", Detail.num amount) ∷ ("idempotency_key", Detail.text key) ∷ [])
  pure tx)

unfoldable pub binding : ℕ → ℕ → ℕ → String → Action Db Binding
binding organization_id panel_id pg_admin_id username = request (do
  known ← gets (λ d.
      is_some (get_org organization_id d.tenants.organizations)
      && any (λ p. p.id == panel_id) d.panels)
  raise_if (not known) (http 404)
  id ← uid
  let b : Binding = record {
    id = id;
    organization_id = organization_id;
    panel_id = panel_id;
    pg_admin_id = pg_admin_id;
    username = username;
    status = Status.active;
  }
  modify (λ d. record d { bindings = b ∷ d.bindings })
  audit "binding.create" "binding" none none (some organization_id)
      (("panel_id", Detail.num panel_id) ∷ ("pg_admin_id", Detail.num pg_admin_id) ∷ [])
  pure b)

-- a membership is added once, and its role stays as it was first given
unfoldable pub bind_actor : ℕ → String → ℕ → String → Action Db ℕ
bind_actor telegram_id display_name organization_id role = request (do
  known ← gets (λ d. get_org organization_id d.tenants.organizations)
  raise_if (not (is_some known)) (http 404)
  actor ← create_requester telegram_id display_name
  member ←
      gets (λ d.
        any (λ m. m.organization_id == organization_id && m.actor_id == actor.id) d.memberships)
  (if member then pure tt else add_member organization_id actor.id role)
  audit "actor.bind" "actor" (some actor.id) none (some organization_id)
      (("telegram_id", Detail.num telegram_id) ∷ ("role", Detail.text role) ∷ [])
  pure actor.id)

unfoldable pub bootstrap_workspace : String → Identity → String → String → String → Action Db ℕ
unfolding insert_root
bootstrap_workspace expected identity setup_token business_name slug = request (do
  raise_if (ltb (length (codes expected)) 32 || not (str_eq expected setup_token)) (http 401)
  complete ← gets (λ d. is_some d.bootstrap_complete)
  raise_if complete (http 409)
  taken ← gets (slug_taken slug)
  raise_if taken (http 409)
  o ← insert_root (record { name = business_name; slug = slug; credit_limit_irr = 0 })
  actor ← create_requester identity.user_id identity.first_name
  add_member o actor.id "reseller_admin"
  modify (λ d. record d { bootstrap_complete = some o })
  audit "workspace.bootstrap" "organization" (some o) (some actor.id) (some o)
      (("slug", Detail.text slug) ∷ [])
  pure o)
