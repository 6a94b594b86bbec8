-- ===== src/Chat/Menus.antt =====
-- The menus of the bot: one table drives both keyboards (src/control_plane/telegram_consumer.py:
-- SECTIONS to label_to_section). The labels are those of the source; characters that run from right
-- to left are written by their numbers.
use pasarguard_control_plane.Base.{
  String, str_eq, Bool, true, false, ◌&&◌, Option, some, none, List, [], ◌∷◌, map, find, any,
  where_rows, if◌then◌else◌,
}
use pasarguard_control_plane.Rbac.{Role, Permission, may}

pub data Audience : Type 0 where
  staff customer both : Audience

pub data Section : Type 0 where
  dashboard orders servers catalog resellers finance approvals system webapp : Section
  transactions funding credit new_reseller : Section
  new_order my_orders my_panel usage topup my_webapp support : Section

-- the rows of `SECTIONS`, in their order
abbrev pub sections : List Section
sections =
    Section.dashboard ∷ Section.orders ∷ Section.servers ∷ Section.catalog ∷ Section.resellers
    ∷ Section.finance ∷ Section.approvals ∷ Section.system ∷ Section.webapp ∷ Section.transactions
    ∷ Section.funding ∷ Section.credit ∷ Section.new_reseller ∷ Section.new_order
    ∷ Section.my_orders ∷ Section.my_panel ∷ Section.usage ∷ Section.topup ∷ Section.my_webapp
    ∷ Section.support ∷ []

abbrev pub section_name : Section → String
section_name Section.dashboard = "dashboard"
section_name Section.orders = "orders"
section_name Section.servers = "servers"
section_name Section.catalog = "catalog"
section_name Section.resellers = "resellers"
section_name Section.finance = "finance"
section_name Section.approvals = "approvals"
section_name Section.system = "system"
section_name Section.webapp = "webapp"
section_name Section.transactions = "transactions"
section_name Section.funding = "funding"
section_name Section.credit = "credit"
section_name Section.new_reseller = "new_reseller"
section_name Section.new_order = "new_order"
section_name Section.my_orders = "my_orders"
section_name Section.my_panel = "my_panel"
section_name Section.usage = "usage"
section_name Section.topup = "topup"
section_name Section.my_webapp = "my_webapp"
section_name Section.support = "support"

-- `LABELS`
abbrev pub label : Section → String
label Section.dashboard = "📊 \u{62f}\u{627}\u{634}\u{628}\u{648}\u{631}\u{62f}"
label Section.orders =
    "🧾 \u{633}\u{641}\u{627}\u{631}\u{634}\u{200c}\u{647}\u{627}\u{6cc} \u{67e}\u{646}\u{644}"
label Section.servers = "🖥 \u{633}\u{631}\u{648}\u{631}\u{647}\u{627}"
label Section.catalog = "🛍 \u{6a9}\u{627}\u{62a}\u{627}\u{644}\u{648}\u{6af} \u{67e}\u{644}\u{646}"
label Section.resellers = "👥 \u{646}\u{645}\u{627}\u{6cc}\u{646}\u{62f}\u{6af}\u{627}\u{646}"
label Section.finance = "💰 \u{645}\u{631}\u{6a9}\u{632} \u{645}\u{627}\u{644}\u{6cc}"
label Section.approvals =
    "✅ \u{62a}\u{623}\u{6cc}\u{6cc}\u{62f} \u{627}\u{635}\u{644}\u{627}\u{62d}\u{627}\u{62a}"
label Section.system =
    "⚙\u{fe0f} \u{645}\u{62f}\u{6cc}\u{631}\u{6cc}\u{62a} \u{633}\u{6cc}\u{633}\u{62a}\u{645}"
label Section.webapp = "🌐 \u{648}\u{628}\u{200c}\u{627}\u{67e}"
label Section.transactions = "📜 \u{62a}\u{631}\u{627}\u{6a9}\u{646}\u{634}\u{200c}\u{647}\u{627}"
label Section.funding =
    "💴 \u{62f}\u{631}\u{62e}\u{648}\u{627}\u{633}\u{62a}\u{200c}\u{647}\u{627}\u{6cc} \u{645}\u{627}\u{644}\u{6cc}"
label Section.credit =
    "➕ \u{62f}\u{631}\u{62e}\u{648}\u{627}\u{633}\u{62a} \u{627}\u{639}\u{62a}\u{628}\u{627}\u{631}"
label Section.new_reseller =
    "➕ \u{646}\u{645}\u{627}\u{6cc}\u{646}\u{62f}\u{647} \u{62c}\u{62f}\u{6cc}\u{62f}"
label Section.new_order = "➕ \u{633}\u{641}\u{627}\u{631}\u{634} \u{67e}\u{646}\u{644}"
label Section.my_orders =
    "🧾 \u{633}\u{641}\u{627}\u{631}\u{634}\u{200c}\u{647}\u{627}\u{6cc} \u{645}\u{646}"
label Section.my_panel =
    "🖥 \u{67e}\u{646}\u{644} \u{648} \u{645}\u{634}\u{62a}\u{631}\u{6a9}\u{627}\u{646}"
label Section.usage =
    "📈 \u{645}\u{635}\u{631}\u{641} \u{648} \u{62a}\u{631}\u{627}\u{6a9}\u{646}\u{634}"
label Section.topup =
    "💳 \u{62f}\u{631}\u{62e}\u{648}\u{627}\u{633}\u{62a} \u{634}\u{627}\u{631}\u{698}"
label Section.my_webapp = "🌐 \u{67e}\u{646}\u{644} \u{6a9}\u{627}\u{631}\u{628}\u{631}\u{6cc}"
label Section.support = "🛟 \u{67e}\u{634}\u{62a}\u{6cc}\u{628}\u{627}\u{646}\u{6cc}"

-- `SECTION_PERMISSION`
abbrev pub section_permission : Section → Permission
section_permission Section.dashboard = Permission.view_dashboard
section_permission Section.orders = Permission.decide_orders
section_permission Section.servers = Permission.manage_servers
section_permission Section.catalog = Permission.manage_catalog
section_permission Section.resellers = Permission.manage_resellers
section_permission Section.finance = Permission.view_finance
section_permission Section.approvals = Permission.decide_adjustment
section_permission Section.system = Permission.view_audit
section_permission Section.webapp = Permission.view_dashboard
section_permission Section.transactions = Permission.view_finance
section_permission Section.funding = Permission.decide_funding
section_permission Section.credit = Permission.request_funding
section_permission Section.new_reseller = Permission.manage_resellers
section_permission Section.new_order = Permission.order_panel
section_permission Section.my_orders = Permission.order_panel
section_permission Section.my_panel = Permission.view_dashboard
section_permission Section.usage = Permission.view_finance
section_permission Section.topup = Permission.request_funding
section_permission Section.my_webapp = Permission.view_dashboard
section_permission Section.support = Permission.create_support_ticket

abbrev pub section_audience : Section → Audience
section_audience Section.dashboard = Audience.staff
section_audience Section.orders = Audience.staff
section_audience Section.servers = Audience.staff
section_audience Section.catalog = Audience.staff
section_audience Section.resellers = Audience.staff
section_audience Section.finance = Audience.staff
section_audience Section.approvals = Audience.staff
section_audience Section.system = Audience.staff
section_audience Section.webapp = Audience.staff
section_audience Section.transactions = Audience.staff
section_audience Section.funding = Audience.staff
section_audience Section.credit = Audience.staff
section_audience Section.new_reseller = Audience.staff
section_audience Section.new_order = Audience.customer
section_audience Section.my_orders = Audience.customer
section_audience Section.my_panel = Audience.customer
section_audience Section.usage = Audience.customer
section_audience Section.topup = Audience.customer
section_audience Section.my_webapp = Audience.customer
section_audience Section.support = Audience.both

unfoldable pub audience_for : Role → Audience
audience_for Role.customer = Audience.customer
audience_for _ = Audience.staff

-- `section_audience in (audience, BOTH)`
abbrev pub is_for : Audience → Audience → Bool
is_for _ Audience.both = true
is_for Audience.staff Audience.staff = true
is_for Audience.customer Audience.customer = true
is_for _ _ = false

-- every section that a role may open
unfoldable pub sections_for : Role → List Section
unfolding audience_for
sections_for role =
    where_rows
      (λ s. is_for (audience_for role) (section_audience s) && may role (section_permission s))
      sections

-- `name in names`
unfoldable pub has : List Section → Section → Bool
has names s = any (λ x. str_eq (section_name x) (section_name s)) names

-- `TOP`
abbrev pub top : Audience → List Section
top Audience.customer =
    Section.new_order ∷ Section.my_orders ∷ Section.my_panel ∷ Section.usage ∷ Section.topup
    ∷ Section.support ∷ Section.my_webapp ∷ []
top _ =
    Section.dashboard ∷ Section.orders ∷ Section.servers ∷ Section.catalog ∷ Section.resellers
    ∷ Section.finance ∷ Section.approvals ∷ Section.system ∷ Section.support ∷ Section.webapp ∷ []

unfoldable pub top_for : Role → List Section
unfolding sections_for has audience_for
top_for role = where_rows (has (sections_for role)) (top (audience_for role))

-- two buttons to a row
unfoldable pub pairs {ℓ} : {A : Type ℓ} → List A → List (List A)
pairs [] = []
pairs (x ∷ []) = (x ∷ []) ∷ []
pairs (x ∷ y ∷ rest) = (x ∷ y ∷ []) ∷ pairs rest

-- the persistent reply keyboard
unfoldable pub menu_for : Role → List (List String)
unfolding top_for pairs
menu_for role = pairs (map label (top_for role))

unfoldable pub label_to_section : String → Option Section
label_to_section l = find (λ s. str_eq (label s) l) sections

-- the section of a callback's text, where `SECTION_PERMISSION` has it
unfoldable pub section_named : String → Option Section
section_named name = find (λ s. str_eq (section_name s) name) sections

-- where a command leads
pub data Target : Type 0 where
  menu : Target
  to : Section → Target

-- `ALIASES`
unfoldable pub alias_of : String → Option Target
alias_of s =
    if str_eq s "/dashboard"
    then some (Target.to Section.dashboard)
    else if str_eq s "/servers"
    then some (Target.to Section.servers)
    else if str_eq s "/support"
    then some (Target.to Section.support)
    else if str_eq s "/resellers"
    then some (Target.to Section.resellers)
    else if str_eq s "/finance"
    then some (Target.to Section.finance)
    else if str_eq s "/orders"
    then some (Target.to Section.orders)
    else if str_eq s "/menu"
    then some Target.menu
    else none
