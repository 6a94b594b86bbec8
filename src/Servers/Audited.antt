-- ===== src/Servers/Audited.antt =====
-- Every call of a server leaves one audit row (web_api.py: panel_operation).
use pasarguard_control_plane.Base.{
  ℕ, String, ◌≡◌, Option, some, List, ◌∷◌, http, Result, ok, err, ◌+◌,
}
use pasarguard_control_plane.Store.{Db}
use pasarguard_control_plane.Store.Rows.{Panel, Detail, AuditLog}
use pasarguard_control_plane.Servers.{Upstream}

-- what the caller of the operation sees
abbrev pub seen : {A : Type 0} → Upstream A → Result A
seen (Upstream.answered a) = ok a
seen _ = err (http 502)

abbrev pub named : {A : Type 0} → String → String → Upstream A → String
named action failed_action (Upstream.answered _) = action
named action failed_action _ = failed_action

-- the row of a call
abbrev new_row : ℕ → ℕ → ℕ → Option ℕ → String → List (String × Detail) → AuditLog
new_row id panel organization actor name details = record {
  id = id;
  actor_id = actor;
  organization_id = some organization;
  action = name;
  target_type = "panel";
  target_id = some panel;
  details = details;
}

module _ {A : Type 0} (p : Panel) (organization : ℕ) (action failed_action : String)
    (actor : Option ℕ) (metadata : List (String × Detail)) (d : Db) where
  -- one new row about an answer, and nothing else
  pub record Audited (u : Upstream A) (end : Result A × Db) : Type 0 where
    pub answer : end.0 ≡ seen u
    pub row : AuditLog
    pub only_row : end.1 ≡ record d { next_id = d.next_id + 1; audits = row ∷ d.audits }
    pub action_named : row.action ≡ named action failed_action u
    pub target : row.target_id ≡ some p.id
    pub by_actor : row.actor_id ≡ actor
    pub within : row.organization_id ≡ some organization
