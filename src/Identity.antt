-- ===== src/Identity.antt =====
-- Who calls: the membership and the role of a Telegram identity, resolved on every request
-- (src/control_plane/app.py: pick_membership, membership_for; src/control_plane/web_api.py:
-- require_root, optional_membership, manager, order_permission, requester_actor, owned_panel).
use pasarguard_control_plane.Base.{
  ℕ, ◌+◌, String, Bool, false, not, ◌&&◌, Option, some, none, List, ◌∷◌, ◌==◌, if◌then◌else◌, find,
  where_rows, any, http, ok, err, Action, pure, gets, or_raise, raise_if, ◌>>=◌, ◌>>◌,
}
use pasarguard_control_plane.Rbac.{Role, Permission, may, effective_role}
use pasarguard_control_plane.Tenancy.{Organization, get_org}
use pasarguard_control_plane.Store.{Db, Env}
use pasarguard_control_plane.Store.Rows.{Status, is_active, Actor, Membership, Panel}

-- the id of a caller that its signature vouches for
pub record Identity : Type 0 where
  pub user_id : ℕ
  pub first_name : String

unfoldable pub is_root : Env → ℕ → Bool
is_root env telegram_id = elim env.root_telegram_id [ none ↦ false | some r ↦ telegram_id == r ]

unfoldable pub active_actor : ℕ → List Actor → Option Actor
active_actor telegram_id = find (λ a. a.telegram_id == telegram_id && is_active a.status)

abbrev pub active_member : ℕ → Membership → Bool
active_member actor m = m.actor_id == actor && is_active m.status

-- the oldest active membership, and for the root its own organization first
unfoldable pub pick_membership : Env → ℕ → ℕ → Db → Option Membership
unfolding is_root
pick_membership env actor telegram_id d =
    let oldest = find (active_member actor) d.memberships in
    if is_root env telegram_id
    then elim d.bootstrap_complete [
      | none ↦ oldest
      | some root_org ↦
          elim (find (λ m. active_member actor m && m.organization_id == root_org) d.memberships) [
            | none ↦ oldest
            | some m ↦ some m
          ]
    ]
    else oldest

pub record Caller : Type 0 where
  pub actor : Actor
  pub membership : Membership
  pub organization : Organization

-- 403 without an active actor or an active membership; the organization is a foreign key
unfoldable pub membership_for : Env → ℕ → Action Db Caller
unfolding active_actor pick_membership
membership_for env telegram_id = do
  actor ← gets (λ d. active_actor telegram_id d.actors) >>= λ a. or_raise a (http 403)
  membership ← gets (pick_membership env actor.id telegram_id) >>= λ m. or_raise m (http 403)
  organization ← gets (λ d. get_org membership.organization_id d.tenants.organizations) >>= λ o.
      or_raise o (http 500)
  pure (record { actor = actor; membership = membership; organization = organization })

abbrev pub role_of : Env → ℕ → Membership → Role
role_of env telegram_id m = effective_role env.root_telegram_id telegram_id (some m.role)

-- the caller, if its role has the permission
unfoldable pub manager : Env → ℕ → Permission → Action Db Caller
unfolding membership_for
manager env telegram_id permission = do
  caller ← membership_for env telegram_id
  raise_if (not (may (role_of env telegram_id caller.membership) permission)) (http 403)
  pure caller

unfoldable pub require_root : Env → ℕ → Action Db (Unit {0})
require_root env telegram_id d = elim env.root_telegram_id [
  | none ↦ (err (http 503), d)
  | some root ↦ (if telegram_id == root then ok tt else err (http 403), d)
]

-- an active membership of an active actor, whichever the query gives first
pub linked_role : Env → ℕ → Db → Option Role
unfolding active_actor
linked_role env telegram_id d = elim (active_actor telegram_id d.actors) [
  | none ↦ none
  | some a ↦ elim (env.first_row (where_rows (active_member a.id) d.memberships)) [
    | none ↦ none
    | some m ↦ some (role_of env telegram_id m)
  ]
]

-- a linked account obeys the matrix; an unlinked one may knock
unfoldable pub order_permission : Env → ℕ → Permission → Action Db (Unit {0})
unfolding linked_role
order_permission env telegram_id permission d = elim (linked_role env telegram_id d) [
  | none ↦ (ok tt, d)
  | some r ↦ (if may r permission then ok tt else err (http 403), d)
]

unfoldable pub find_actor : ℕ → List Actor → Option Actor
find_actor telegram_id = find (λ a. a.telegram_id == telegram_id)

-- the actor of a Telegram account, made on the spot if there is none
unfoldable pub create_requester : ℕ → String → Action Db Actor
unfolding find_actor
create_requester telegram_id display_name d = elim (find_actor telegram_id d.actors) [
  | some a ↦ (ok a, d)
  | none ↦
      let a : Actor = record {
        id = d.next_id;
        telegram_id = telegram_id;
        display_name = display_name;
        status = Status.active;
      } in
      (ok a, record d { next_id = d.next_id + 1; actors = a ∷ d.actors })
]

unfoldable pub owns_panel : ℕ → ℕ → Db → Bool
owns_panel panel organization d =
    any (λ l. l.panel_id == panel && l.organization_id == organization) d.panel_owners

-- an active server of the organization, or 404
unfoldable pub owned_panel : ℕ → ℕ → Action Db Panel
unfolding owns_panel
owned_panel panel organization d =
    if owns_panel panel organization d
    then elim (find (λ p. p.id == panel) d.panels) [
      | none ↦ (err (http 404), d)
      | some p ↦ (if is_active p.status then ok p else err (http 404), d)
    ]
    else (err (http 404), d)
