-- ===== src/Tests/Servers.antt =====
-- Runs of the catalog, the limiter and the servers.
use pasarguard_control_plane.Rbac.{effective_role, may}
use pasarguard_control_plane.Identity.{manager}
use pasarguard_control_plane.Base.{ℕ, ◌≡◌, refl, List, [], ◌∷◌, err, ok}
use pasarguard_control_plane.Store.{Db, audit, request}
use pasarguard_control_plane.Store.Rows.{OrderStatus}
use pasarguard_control_plane.Catalog.{web_delete_plan}
use pasarguard_control_plane.Limiter.{Hits}
use pasarguard_control_plane.Servers.Audited.{Audited}
use pasarguard_control_plane.Tests.Data.{db_with, env}

abbrev db : Db
db = db_with OrderStatus.pending

-- the reseller takes down its plan while nobody has ordered it
abbrev unordered_db : Db
unordered_db = record db { orders = [] }

delete_plan_run : (elim (web_delete_plan env 8 30 unordered_db).0 [ ok id ↦ id | err e ↦ 0 ]) ≡ 30
unfolding web_delete_plan request manager may effective_role audit
delete_plan_run = refl

-- a caller with two hits in the last minute and a budget of two
abbrev busy : Hits
busy = ("203.0.113.9", 100 ∷ 130 ∷ []) ∷ []

abbrev nodes : List ℕ
nodes = 1 ∷ 2 ∷ []
