-- ===== src/Catalog.antt =====
-- The plan catalog: shelves and published prices (src/control_plane/web_api.py: catalog_shelf to
-- web_delete_plan, and set_panel_saleable).
pub mod Shelves
use pasarguard_control_plane.Base.{
  ℕ, String, str_eq, Bool, true, false, not, ◌&&◌, ◌||◌, Option, some, none, List, [], ◌∷◌, ◌==◌,
  if◌then◌else◌, find, any, where_rows, update_where, http, ok, err, Action, pure, gets, modify,
  or_raise, raise_if, ◌>>=◌, ◌>>◌,
}
use pasarguard_control_plane.Rbac.{Permission}
use pasarguard_control_plane.Store.{Db, Env, uid, audit, request}
use pasarguard_control_plane.Store.Rows.{Status, Panel, PlanCategory, Plan, amount_irr, Detail}
use pasarguard_control_plane.Identity.{Caller, manager, owned_panel}

pub record PlanCategoryIn : Type 0 where
  pub name : String
  pub description : String

pub record PlanIn : Type 0 where
  pub panel_id : ℕ
  pub category_id : Option ℕ
  pub name : String
  pub description : String
  pub price_per_gib_irr : ℕ
  pub daily_gib : ℕ
  pub duration_days : ℕ
  pub user_count : ℕ
  pub credit_limit_irr : ℕ
  pub payment_instructions : String

-- a shelf of the organization, or 404
unfoldable pub catalog_shelf : ℕ → ℕ → Action Db PlanCategory
catalog_shelf category_id organization = do
  c ← gets (λ d. find (λ c. c.id == category_id) d.categories) >>= λ c. or_raise c (http 404)
  raise_if (not (c.organization_id == organization)) (http 404)
  pure c

unfoldable pub catalog_plan : ℕ → ℕ → Action Db Plan
catalog_plan plan_id organization = do
  p ← gets (λ d. find (λ p. p.id == plan_id) d.plans) >>= λ p. or_raise p (http 404)
  raise_if (not (p.organization_id == organization)) (http 404)
  pure p

abbrev pub same_name : ℕ → String → PlanCategory → Bool
same_name organization name c = c.organization_id == organization && str_eq c.name name

unfoldable pub create_plan_category : ℕ → ℕ → PlanCategoryIn → Action Db PlanCategory
create_plan_category organization actor x = do
  taken ← gets (λ d. any (same_name organization x.name) d.categories)
  raise_if taken (http 409)
  id ← uid
  let c : PlanCategory = record {
    id = id;
    organization_id = organization;
    name = x.name;
    description = x.description;
    status = Status.active;
  }
  modify (λ d. record d { categories = c ∷ d.categories })
  audit "plan_category.create" "plan_category" none (some actor) (some organization)
      (("name", Detail.text x.name) ∷ [])
  pure c

-- the caller of the catalog's endpoints
unfoldable pub keeper : Env → ℕ → Action Db Caller
keeper env telegram_id = manager env telegram_id Permission.manage_catalog

unfoldable pub web_create_category : Env → ℕ → PlanCategoryIn → Action Db PlanCategory
unfolding keeper create_plan_category
web_create_category env telegram_id x = request (do
  caller ← keeper env telegram_id
  create_plan_category caller.organization.id caller.actor.id x)

abbrev pub put_category : PlanCategory → Action Db (Unit {0})
put_category c =
    modify (λ d. record d { categories = update_where (λ x. x.id == c.id) (λ _. c) d.categories })

unfoldable pub web_update_category : Env → ℕ → ℕ → PlanCategoryIn → Action Db PlanCategory
unfolding keeper catalog_shelf
web_update_category env telegram_id category_id x = request (do
  caller ← keeper env telegram_id
  c ← catalog_shelf category_id caller.organization.id
  taken ←
      gets (λ d.
        any (λ y. same_name caller.organization.id x.name y && not (y.id == c.id)) d.categories)
  raise_if taken (http 409)
  put_category (record c { name = x.name; description = x.description })
  audit "plan_category.update" "plan_category" (some c.id) (some caller.actor.id)
      (some caller.organization.id) (("name", Detail.text x.name) ∷ [])
  pure (record c { name = x.name; description = x.description }))

abbrev pub put_plan : Plan → Action Db (Unit {0})
put_plan p = modify (λ d. record d { plans = update_where (λ x. x.id == p.id) (λ _. p) d.plans })

-- what a status is called, or 422
abbrev pub status_of : String → Option Status
status_of s =
    if str_eq s "active"
    then some Status.active
    else if str_eq s "inactive"
    then some Status.inactive
    else none

pub data Kind : Type 0 where
  category plan : Kind

abbrev pub set_row_status : Kind → ℕ → ℕ → Status → Action Db (Unit {0})
unfolding catalog_shelf catalog_plan
set_row_status Kind.category target organization status = do
  c ← catalog_shelf target organization
  put_category (record c { status = status })
set_row_status Kind.plan target organization status = do
  p ← catalog_plan target organization
  put_plan (record p { status = status })

abbrev pub status_action : Kind → String × String
status_action Kind.category = ("plan_category.status", "plan_category")
status_action Kind.plan = ("plan.status", "plan")

unfoldable pub set_catalog_status : ℕ → ℕ → Kind → ℕ → String → Action Db Status
unfolding set_row_status
set_catalog_status organization actor kind target status = do
  s ← or_raise (status_of status) (http 422)
  set_row_status kind target organization s
  audit (status_action kind).0 (status_action kind).1 (some target) (some actor) (some organization)
      (("status", Detail.text status) ∷ [])
  pure s

unfoldable pub web_category_status : Env → ℕ → ℕ → String → Action Db Status
unfolding keeper set_catalog_status
web_category_status env telegram_id category_id status = request (do
  caller ← keeper env telegram_id
  set_catalog_status caller.organization.id caller.actor.id Kind.category category_id status)

unfoldable pub web_plan_status : Env → ℕ → ℕ → String → Action Db Status
unfolding keeper set_catalog_status
web_plan_status env telegram_id plan_id status = request (do
  caller ← keeper env telegram_id
  set_catalog_status caller.organization.id caller.actor.id Kind.plan plan_id status)

abbrev pub names : Option ℕ → ℕ → Bool
names none id = false
names (some x) id = x == id

-- a shelf that no plan stands on
unfoldable pub web_delete_category : Env → ℕ → ℕ → Action Db ℕ
unfolding keeper catalog_shelf
web_delete_category env telegram_id category_id = request (do
  caller ← keeper env telegram_id
  c ← catalog_shelf category_id caller.organization.id
  used ← gets (λ d. any (λ p. names p.category_id c.id) d.plans)
  raise_if used (http 409)
  modify (λ d. record d { categories = where_rows (λ x. not (x.id == c.id)) d.categories })
  audit "plan_category.delete" "plan_category" (some category_id) (some caller.actor.id)
      (some caller.organization.id) []
  pure category_id)

-- the shelf is the seller's own, and so is the server
unfoldable pub validated_plan : PlanIn → ℕ → Action Db Panel
unfolding catalog_shelf
validated_plan x organization = do own_shelf x.category_id; owned_panel x.panel_id organization
  where
    own_shelf : Option ℕ → Action Db (Unit {0})
    own_shelf none = pure tt
    own_shelf (some c) = catalog_shelf c organization >> pure tt

-- the row that a form makes
unfoldable pub filled_plan : ℕ → ℕ → ℕ → Status → PlanIn → Plan
filled_plan id organization panel status x = record {
  id = id;
  organization_id = organization;
  panel_id = panel;
  category_id = x.category_id;
  name = x.name;
  description = x.description;
  price_per_gib_irr = x.price_per_gib_irr;
  daily_gib = x.daily_gib;
  duration_days = x.duration_days;
  user_count = x.user_count;
  credit_limit_irr = x.credit_limit_irr;
  payment_instructions = x.payment_instructions;
  status = status;
}

abbrev pub plan_details : Plan → List (String × Detail)
plan_details p =
    ("panel_id", Detail.num p.panel_id)
    ∷ ("name", Detail.text p.name)
    ∷ ("amount_irr", Detail.num (amount_irr p))
    ∷ []

unfoldable pub create_catalog_plan : ℕ → ℕ → PlanIn → Action Db Plan
unfolding validated_plan filled_plan
create_catalog_plan organization actor x = do
  panel ← validated_plan x organization
  id ← uid
  let p = filled_plan id organization panel.id Status.active x
  modify (λ d. record d { plans = p ∷ d.plans })
  audit "plan.create" "plan" none (some actor) (some organization) (plan_details p)
  pure p

unfoldable pub web_create_plan : Env → ℕ → PlanIn → Action Db Plan
unfolding keeper create_catalog_plan
web_create_plan env telegram_id x = request (do
  caller ← keeper env telegram_id
  create_catalog_plan caller.organization.id caller.actor.id x)

unfoldable pub web_update_plan : Env → ℕ → ℕ → PlanIn → Action Db Plan
unfolding keeper catalog_plan validated_plan filled_plan
web_update_plan env telegram_id plan_id x = request (do
  caller ← keeper env telegram_id
  p ← catalog_plan plan_id caller.organization.id
  panel ← validated_plan x caller.organization.id
  let p' = filled_plan p.id p.organization_id panel.id p.status x
  put_plan p'
  audit "plan.update" "plan" (some p.id) (some caller.actor.id) (some caller.organization.id)
      (plan_details p')
  pure p')

-- a plan that nobody has ordered
unfoldable pub web_delete_plan : Env → ℕ → ℕ → Action Db ℕ
unfolding keeper catalog_plan
web_delete_plan env telegram_id plan_id = request (do
  caller ← keeper env telegram_id
  p ← catalog_plan plan_id caller.organization.id
  used ← gets (λ d. any (λ o. names o.plan_id p.id) d.orders)
  raise_if used (http 409)
  modify (λ d. record d { plans = where_rows (λ x. not (x.id == p.id)) d.plans })
  audit "plan.delete" "plan" (some plan_id) (some caller.actor.id) (some caller.organization.id) []
  pure plan_id)

unfoldable pub set_panel_saleable : Env → ℕ → ℕ → Bool → Action Db Bool
set_panel_saleable env telegram_id panel_id saleable = request (do
  caller ← manager env telegram_id Permission.manage_servers
  p ← owned_panel panel_id caller.organization.id
  modify (λ d. record d {
    panels = update_where (λ x. x.id == p.id) (λ x. record x { saleable = saleable }) d.panels;
  })
  audit "panel.saleable" "panel" (some p.id) (some caller.actor.id) (some caller.organization.id)
      (("saleable", Detail.flag saleable) ∷ [])
  pure saleable)
