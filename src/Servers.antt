-- ===== src/Servers.antt =====
-- Who may touch a mother server, and how a call of it is recorded (src/control_plane/web_api.py:
-- accessible_panel, org_binding, panel_is_mine, panel_operation, web_set_usage_coefficient;
-- src/control_plane/app.py: assert_vendor). The client of the server is an argument: what it
-- answers is `Upstream`.
pub mod Audited
use pasarguard_control_plane.Base.{
  ℕ, String, str_eq, Bool, true, false, not, ◌&&◌, ◌||◌, Option, some, none, List, [], ◌∷◌, ◌++◌,
  ◌==◌, if◌then◌else◌, find, any, update_where, http, Result, ok, err, Action, pure, gets, modify,
  or_raise, raise_if, ◌>>=◌, ◌>>◌,
}
use pasarguard_control_plane.Rbac.{Permission}
use pasarguard_control_plane.Store.{Db, Env, audit, request}
use pasarguard_control_plane.Store.Rows.{is_active, Panel, Binding, Detail}
use pasarguard_control_plane.Identity.{manager, owns_panel, owned_panel}

unfoldable pub panel_is_mine : ℕ → ℕ → Db → Bool
unfolding owns_panel
panel_is_mine panel organization d = owns_panel panel organization d

abbrev pub is_bound : ℕ → ℕ → Binding → Bool
is_bound panel organization b = b.panel_id == panel && b.organization_id == organization

-- an active server that the organization owns or is bound to, or 404
unfoldable pub accessible_panel : ℕ → ℕ → Action Db Panel
unfolding owns_panel
accessible_panel panel organization d =
    if owns_panel panel organization d || any (is_bound panel organization) d.bindings
    then elim (find (λ p. p.id == panel) d.panels) [
      | none ↦ (err (http 404), d)
      | some p ↦ (if is_active p.status then ok p else err (http 404), d)
    ]
    else (err (http 404), d)

unfoldable pub org_binding : ℕ → ℕ → Action Db Binding
org_binding organization panel =
    gets (λ d. find (is_bound panel organization) d.bindings) >>= λ b. or_raise b (http 409)

-- what a call of a server comes to: its answer, an HTTP status that is an error, or any other
-- exception
pub data Upstream (A : Type 0) : Type 0 where
  answered : A → Upstream A
  refused : ℕ → Upstream A
  unreachable : Upstream A

-- `SUPPORTED_VENDORS`
abbrev pub is_supported : Panel → Bool
is_supported p = str_eq p.vendor "pasarguard"

-- `assert_vendor` raises inside the try block, where any exception counts as unreachable
abbrev pub called : {A : Type 0} → Panel → (Panel → Upstream A) → Upstream A
called p run = if is_supported p then run p else Upstream.unreachable

-- the audit row of each end, which is committed in all of them
unfoldable pub record_answer :
    {A : Type 0}
    → Panel
    → ℕ
    → String
    → String
    → Option ℕ
    → List (String × Detail)
    → Upstream A
    → Action Db A
unfolding audit
record_answer p organization action failed_action actor metadata (Upstream.answered a) =
    audit action "panel" (some p.id) actor (some organization) metadata >> pure a
record_answer p organization action failed_action actor metadata (Upstream.refused code) =
    audit failed_action "panel" (some p.id) actor (some organization)
      (("status_code", Detail.num code) ∷ metadata)
    >> λ d. (err (http 502), d)
record_answer p organization action failed_action actor metadata Upstream.unreachable =
    audit failed_action "panel" (some p.id) actor (some organization)
      (("unreachable", Detail.flag true) ∷ metadata)
    >> λ d. (err (http 502), d)

unfoldable pub panel_operation :
    {A : Type 0}
    → Panel
    → ℕ
    → String
    → String
    → (Panel → Upstream A)
    → Option ℕ
    → List (String × Detail)
    → Action Db A
unfolding record_answer
panel_operation p organization action failed_action run actor metadata =
    record_answer p organization action failed_action actor metadata (called p run)

-- the coefficient is held in ten-thousandths, as the column has it
unfoldable pub web_set_usage_coefficient : Env → ℕ → ℕ → ℕ → Action Db ℕ
web_set_usage_coefficient env telegram_id panel_id coefficient = request (do
  caller ← manager env telegram_id Permission.change_billing_coefficient
  p ← owned_panel panel_id caller.organization.id
  modify (λ d. record d {
    panels =
        update_where (λ x. x.id == p.id) (λ x. record x { usage_coefficient = coefficient })
          d.panels;
  })
  audit "panel.coefficient" "panel" (some p.id) (some caller.actor.id) (some caller.organization.id)
      (("usage_coefficient", Detail.num coefficient) ∷ [])
  pure coefficient)
