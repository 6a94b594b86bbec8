-- ===== src/Chat/Context.antt =====
-- Who a chat is, and how the bot refuses (src/control_plane/telegram_consumer.py: context,
-- require_context, the permission check of its handlers, and `except HTTPException`).
use pasarguard_control_plane.Base.{
  ℕ, not, Option, some, none, Result, ok, err, http, permission_error, where_rows, Action, pure,
  gets, or_raise, raise_if, ◌>>=◌, ◌>>◌,
}
use pasarguard_control_plane.Rbac.{Role, Permission, may}
use pasarguard_control_plane.Tenancy.{Organization, get_org}
use pasarguard_control_plane.Store.{Db, Env}
use pasarguard_control_plane.Identity.{active_actor, active_member, role_of}

pub record Context : Type 0 where
  pub actor_id : ℕ
  pub organization : Organization
  pub role : Role

-- The bot takes whichever active membership its query, which has no order, gives first. The
-- organization is a foreign key.
unfoldable pub context : Env → ℕ → Db → Option Context
unfolding active_actor
context env chat d = elim (active_actor chat d.actors) [
  | none ↦ none
  | some a ↦ elim (env.first_row (where_rows (active_member a.id) d.memberships)) [
    | none ↦ none
    | some m ↦ elim (get_org m.organization_id d.tenants.organizations) [
      | none ↦ none
      | some o ↦ some (record { actor_id = a.id; organization = o; role = role_of env chat m })
    ]
  ]
]

unfoldable pub require_context : Env → ℕ → Action Db Context
unfolding context
require_context env chat = gets (context env chat) >>= λ c. or_raise c permission_error

-- the caller, if its role has the permission
unfoldable pub permitted : Env → ℕ → Permission → Action Db Context
unfolding require_context
permitted env chat permission = do
  ctx ← require_context env chat
  raise_if (not (may ctx.role permission)) permission_error
  pure ctx

abbrev pub refusal : {A : Type 0} → Result A × Db → Result A × Db
refusal (ok a, d) = (ok a, d)
refusal (err (http _), d) = (err permission_error, d)
refusal (err e, d) = (err e, d)

-- `except HTTPException as exc: raise PermissionError`
unfoldable pub as_refusal : {A : Type 0} → Action Db A → Action Db A
as_refusal m d = refusal (m d)
