-- ===== src/Rbac.antt =====
-- Role based access control, src/control_plane/rbac.py, with configured_root_id and effective_role
-- of src/control_plane/app.py.
pub mod Access
use pasarguard_control_plane.Base.{
  ℕ, Bool, true, false, ◌&&◌, ◌||◌, Option, some, none, List, [], ◌∷◌, ◌++◌, ◌==◌, if◌then◌else◌,
  any, String, str_eq,
}

pub data Role : Type 0 where
  system_admin reseller_admin operator finance support viewer customer : Role

abbrev pub role_name : Role → String
role_name Role.system_admin = "system_admin"
role_name Role.reseller_admin = "reseller_admin"
role_name Role.operator = "operator"
role_name Role.finance = "finance"
role_name Role.support = "support"
role_name Role.viewer = "viewer"
role_name Role.customer = "customer"

abbrev pub roles : List Role
roles =
    Role.system_admin ∷ Role.reseller_admin ∷ Role.operator ∷ Role.finance ∷ Role.support
    ∷ Role.viewer ∷ Role.customer ∷ []

-- `ROLES[1:]`
abbrev pub assignable_roles : List Role
assignable_roles =
    Role.reseller_admin ∷ Role.operator ∷ Role.finance ∷ Role.support ∷ Role.viewer ∷ Role.customer
    ∷ []

pub data Permission : Type 0 where
  view_dashboard view_finance view_audit export_reports : Permission
  create_support_ticket answer_support request_funding request_adjustment : Permission
  decide_funding manage_servers node_control subscriber_control admin_limit : Permission
  manage_resellers change_billing_coefficient order_panel decide_orders : Permission
  manage_catalog decide_adjustment : Permission

-- the place of a permission in the declaration above, by which permissions are compared
abbrev pub permission_index : Permission → ℕ
permission_index Permission.view_dashboard = 0
permission_index Permission.view_finance = 1
permission_index Permission.view_audit = 2
permission_index Permission.export_reports = 3
permission_index Permission.create_support_ticket = 4
permission_index Permission.answer_support = 5
permission_index Permission.request_funding = 6
permission_index Permission.request_adjustment = 7
permission_index Permission.decide_funding = 8
permission_index Permission.manage_servers = 9
permission_index Permission.node_control = 10
permission_index Permission.subscriber_control = 11
permission_index Permission.admin_limit = 12
permission_index Permission.manage_resellers = 13
permission_index Permission.change_billing_coefficient = 14
permission_index Permission.order_panel = 15
permission_index Permission.decide_orders = 16
permission_index Permission.manage_catalog = 17
permission_index Permission.decide_adjustment = 18

abbrev pub holds : List Permission → Permission → Bool
holds ps p = any (λ q. permission_index q == permission_index p) ps

abbrev pub view : List Permission
view =
    Permission.view_dashboard ∷ Permission.view_finance ∷ Permission.view_audit
    ∷ Permission.export_reports ∷ Permission.create_support_ticket ∷ Permission.answer_support ∷ []

abbrev pub money_request : List Permission
money_request = Permission.request_funding ∷ Permission.request_adjustment ∷ []

abbrev pub money_decide : List Permission
money_decide = Permission.decide_funding ∷ []

abbrev pub infra : List Permission
infra =
    Permission.manage_servers ∷ Permission.node_control ∷ Permission.subscriber_control
    ∷ Permission.admin_limit ∷ []

abbrev pub network : List Permission
network = Permission.manage_resellers ∷ []

abbrev pub pricing : List Permission
pricing = Permission.change_billing_coefficient ∷ []

abbrev pub order : List Permission
order = Permission.order_panel ∷ []

abbrev pub order_decide : List Permission
order_decide = Permission.decide_orders ∷ []

abbrev pub catalog : List Permission
catalog = Permission.manage_catalog ∷ []

abbrev pub customer_set : List Permission
customer_set =
    Permission.view_dashboard ∷ Permission.view_finance ∷ Permission.export_reports
    ∷ Permission.create_support_ticket ∷ Permission.request_funding ∷ Permission.subscriber_control
    ∷ order

unfoldable pub matrix : Role → List Permission
matrix Role.system_admin =
    view
    ++ money_request
    ++ money_decide
    ++ infra
    ++ network
    ++ pricing
    ++ catalog
    ++ order
    ++ order_decide
    ++ Permission.decide_adjustment ∷ []
matrix Role.reseller_admin =
    view ++ money_request ++ money_decide ++ infra ++ network ++ catalog ++ order ++ order_decide
matrix Role.operator =
    Permission.view_dashboard ∷ Permission.view_audit ∷ Permission.export_reports
    ∷ Permission.manage_servers ∷ Permission.node_control ∷ Permission.subscriber_control
    ∷ Permission.admin_limit ∷ []
matrix Role.finance =
    Permission.view_dashboard ∷ Permission.view_finance ∷ Permission.view_audit
      ∷ Permission.export_reports ∷ Permission.create_support_ticket ∷ money_request
    ++ money_decide
matrix Role.support =
    Permission.view_dashboard ∷ Permission.view_finance ∷ Permission.create_support_ticket
    ∷ Permission.answer_support ∷ Permission.subscriber_control ∷ []
matrix Role.viewer =
    Permission.view_dashboard ∷ Permission.view_finance ∷ Permission.export_reports ∷ []
matrix Role.customer = customer_set

-- the entry of MATRIX under a stored text
pub role_named : List Role → String → Option Role
role_named [] s = none
role_named (r ∷ rs) s = if str_eq (role_name r) s then some r else role_named rs s

-- an absent or unknown role is a viewer
unfoldable pub normalize : Option String → Role
unfolding role_named
normalize none = Role.viewer
normalize (some s) = elim (role_named roles s) [ none ↦ Role.viewer | some r ↦ r ]

unfoldable pub permissions_for : Option String → List Permission
unfolding normalize matrix
permissions_for role = matrix (normalize role)

unfoldable pub can : Option String → Permission → Bool
unfolding permissions_for
can role p = holds (permissions_for role) p

-- `can` at a role that is known already, as all its callers have it from `effective_role`
unfoldable pub may : Role → Permission → Bool
unfolding can
may r p = can (some (role_name r)) p

-- The root Telegram identity is the system administrator; anyone else has the stored role. `root`
-- is ROOT_TELEGRAM_ID, if it is a number.
unfoldable pub effective_role : Option ℕ → ℕ → Option String → Role
unfolding normalize
effective_role none telegram_id role = normalize role
effective_role (some root) telegram_id role =
    if telegram_id == root then Role.system_admin else normalize role
