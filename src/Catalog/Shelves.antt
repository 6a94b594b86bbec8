-- ===== src/Catalog/Shelves.antt =====
-- What a deletion from the catalog leaves behind (web_api.py: web_delete_category,
-- web_delete_plan).
use pasarguard_control_plane.Base.{
  ℕ, ◌≡◌, ◌≢◌, refl, ap, true, false, not, some, List, [], ◌∷◌, ◌==◌, find, any, where_rows, arith,
  Action, Post, Reads, http, Reads-follow, or_raise-Reads, raise_if-Reads, raise_if, gets, pure,
  modify, ◌>>=◌, ◌>>◌,
}
use pasarguard_control_plane.Store.{Db, Env, audit}
use pasarguard_control_plane.Store.Rows.{Plan}
use pasarguard_control_plane.Identity.{Caller}
use pasarguard_control_plane.Rbac.{Permission, may}
use pasarguard_control_plane.Identity.{role_of}
use pasarguard_control_plane.Orders.Moves.{request-Post}
use pasarguard_control_plane.Orders.Reads.{manager-Reads}
use pasarguard_control_plane.Catalog.{catalog_plan, keeper, names, web_delete_plan}

-- a plan of the organization
abbrev pub IsOwn : ℕ → ℕ → Db → Plan → Type 0
IsOwn plan_id organization d p =
    (find (λ x. x.id == plan_id) d.plans ≡ some p) × ((p.organization_id == organization) ≡ true)

catalog_plan-Reads :
    (plan_id organization : ℕ) (d : Db)
    → Reads d (IsOwn plan_id organization d) (catalog_plan plan_id organization d)
unfolding catalog_plan
catalog_plan-Reads plan_id organization d =
    let Q : Plan → Db → Type 0 = λ p s. (s ≡ d) × IsOwn plan_id organization d p in
    let guard : Plan → Action Db Plan =
      λ p. raise_if (not (p.organization_id == organization)) (http 404) >> pure p in
    Reads-follow guard d (λ p. find (λ x. x.id == plan_id) d.plans ≡ some p) Q _
      (or_raise-Reads d (http 404) (find (λ x. x.id == plan_id) d.plans))
      (λ p found.
        Reads-follow (λ _. pure p) d (λ _. not (p.organization_id == organization) ≡ false) Q _
          (raise_if-Reads d (http 404) (not (p.organization_id == organization)))
          (λ _ own. (refl, (found, ground (arith, own)))))

find-where_rows :
    (q removed : ℕ) (plans : List Plan)
    → q ≢ removed
    → find (λ x. x.id == q) (where_rows (λ x. not (x.id == removed)) plans)
      ≡ find (λ x. x.id == q) plans
find-where_rows q removed [] ne = refl
find-where_rows q removed (x ∷ plans) ne = ground (arith, find-where_rows q removed plans ne)

-- The deleted plan was the caller's own, and every plan that an order names is as it was.
pub record Deleted (env : Env) (telegram_id plan_id : ℕ) (d d' : Db) : Type 0 where
  pub caller : Caller
  pub permitted : may (role_of env telegram_id caller.membership) Permission.manage_catalog ≡ true
  pub plan : Plan
  pub own : IsOwn plan_id caller.organization.id d plan
  pub unordered : any (λ o. names o.plan_id plan.id) d.orders ≡ false
  pub orders : d'.orders ≡ d.orders
  pub named :
      (q : ℕ)
      → any (λ o. names o.plan_id q) d.orders ≡ true
      → find (λ x. x.id == q) d'.plans ≡ find (λ x. x.id == q) d.plans

-- A plan that is deleted belonged to the organization of a caller that keeps the catalog, and was
-- named by no order; every plan that an order names is still there, unchanged.
pub web_delete_plan-Deleted :
    (env : Env) (telegram_id plan_id : ℕ) (d : Db)
    → Post (λ _. Deleted env telegram_id plan_id d) (web_delete_plan env telegram_id plan_id d)
unfolding web_delete_plan keeper audit
web_delete_plan-Deleted env telegram_id plan_id d =
    let R : ℕ → Db → Type 0 = λ _. Deleted env telegram_id plan_id d in
    let p = Permission.manage_catalog in
    let remove : Caller → Plan → Action Db ℕ = λ c x.
      modify (λ d. record d { plans = where_rows (λ y. not (y.id == x.id)) d.plans })
      >> (audit "plan.delete" "plan" (some plan_id) (some c.actor.id) (some c.organization.id) []
          >> pure plan_id) in
    let check : Caller → Plan → Action Db ℕ = λ c x.
      gets (λ d. any (λ o. names o.plan_id x.id) d.orders) >>= λ used.
      raise_if used (http 409) >> remove c x in
    let own : Caller → Action Db ℕ = λ c. catalog_plan plan_id c.organization.id >>= check c in
    request-Post R (keeper env telegram_id >>= own) d (
      Reads-follow own d (λ c. may (role_of env telegram_id c.membership) p ≡ true) R
        (keeper env telegram_id d) (manager-Reads d env telegram_id p)
        (λ c permitted.
          Reads-follow (check c) d (IsOwn plan_id c.organization.id d) R
            (catalog_plan plan_id c.organization.id d)
            (catalog_plan-Reads plan_id c.organization.id d)
            (λ x mine.
              Reads-follow (λ _. remove c x) d
                (λ _. any (λ o. names o.plan_id x.id) d.orders ≡ false) R
                (raise_if (any (λ o. names o.plan_id x.id) d.orders) (http 409) d)
                (raise_if-Reads d (http 409) (any (λ o. names o.plan_id x.id) d.orders))
                (λ _ unused. record {
                  caller = c;
                  permitted = permitted;
                  plan = x;
                  own = mine;
                  unordered = unused;
                  orders = refl;
                  named = λ q ordered. find-where_rows q x.id d.plans (λ same.
                      cc (ap (λ i. any (λ o. names o.plan_id i) d.orders) same, ordered, unused));
                }))))
