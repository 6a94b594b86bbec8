-- ===== src/Tests/Data.antt =====
-- A small network: a root, a reseller under it and a customer under the reseller, with a server, a
-- plan and an order. Telegram 7 is the root, 8 the reseller and 9 a stranger.
use pasarguard_control_plane.Base.{ℕ, String, true, some, none, List, [], ◌∷◌, pos, find}
use pasarguard_control_plane.Tenancy.{
  OrgStatus, Organization, Closure, ContractStatus, Contract, Tenants,
}
use pasarguard_control_plane.Ledger.Rows.{Books, Key}
use pasarguard_control_plane.Store.{Db, Env}
use pasarguard_control_plane.Store.Rows.{
  Status, Panel, Plan, Binding, Checkpoint, Actor, Membership, FundingStatus, FundingRequest,
  OrderStatus, PanelOrder, ApprovalStatus, ApprovalRequest,
}
use pasarguard_control_plane.Identity.{Identity}
use pasarguard_control_plane.Orders.{OrderIn}
use pasarguard_control_plane.Usage.{UsageIn}

abbrev pub root_org : Organization
root_org = record {
  id = 1;
  parent_id = none;
  name = "root";
  slug = "root";
  status = OrgStatus.active;
  credit_limit_irr = 0;
  max_depth = 5;
}

abbrev pub reseller : Organization
reseller = record {
  id = 2;
  parent_id = some 1;
  name = "north";
  slug = "north";
  status = OrgStatus.active;
  credit_limit_irr = 500;
  max_depth = 5;
}

abbrev pub customer : Organization
customer = record {
  id = 3;
  parent_id = some 2;
  name = "shop";
  slug = "shop";
  status = OrgStatus.active;
  credit_limit_irr = 2000;
  max_depth = 5;
}

abbrev pub network : List Organization
network = customer ∷ reseller ∷ root_org ∷ []

abbrev row : ℕ → ℕ → ℕ → Closure
row a d k = record { ancestor_id = a; descendant_id = d; depth = k }

abbrev price_of : ℕ → ℕ → ℕ → Contract
price_of p c n = record {
  parent_id = p;
  child_id = c;
  price_per_gib_irr = n;
  status = ContractStatus.active;
}

abbrev pub tenants : Tenants
tenants = record {
  organizations = network;
  closure = row 1 1 0 ∷ row 2 2 0 ∷ row 1 2 1 ∷ row 3 3 0 ∷ row 2 3 1 ∷ row 1 3 2 ∷ [];
  contracts = price_of 1 2 1000 ∷ price_of 2 3 1500 ∷ [];
}

abbrev pub lone_tenants : Tenants
lone_tenants = record { organizations = root_org ∷ []; closure = row 1 1 0 ∷ []; contracts = [] }

abbrev pub no_books : Books
no_books = record { next_id = 1; accounts = []; transactions = []; entries = [] }

abbrev pub server : Panel
server = record {
  id = 20;
  name = "mother";
  base_url = "https://mother";
  vendor = "pasarguard";
  usage_coefficient = 10000;
  verify_tls = true;
  status = Status.active;
  saleable = true;
}

abbrev pub plan : Plan
plan = record {
  id = 30;
  organization_id = 2;
  panel_id = 20;
  category_id = none;
  name = "monthly";
  description = "";
  price_per_gib_irr = 1000;
  daily_gib = 2;
  duration_days = 30;
  user_count = 5;
  credit_limit_irr = 0;
  payment_instructions = "card";
  status = Status.active;
}

abbrev pub order_in : OrderStatus → PanelOrder
order_in status = record {
  id = 40;
  actor_id = 52;
  panel_id = 20;
  plan_id = some 30;
  business_name = "cafe";
  slug = "panel-1";
  user_count = 5;
  daily_gib = 2;
  note = "";
  status = status;
  credit_limit_irr = 60000;
  price_per_gib_irr = 1000;
  amount_irr = 60000;
  payment_instructions = "card";
  admin_username = "";
  pg_admin_id = none;
  organization_id = none;
  decided_by = none;
  decided_at = none;
  rejection_reason = "";
}

abbrev actor : ℕ → ℕ → String → Actor
actor id telegram_id name = record {
  id = id;
  telegram_id = telegram_id;
  display_name = name;
  status = Status.active;
}

abbrev member : ℕ → ℕ → String → Membership
member organization actor role = record {
  organization_id = organization;
  actor_id = actor;
  role = role;
  status = Status.active;
}

abbrev pub credit_request : FundingRequest
credit_request = record {
  id = 60;
  organization_id = 3;
  actor_id = 52;
  amount_irr = 700;
  status = FundingStatus.pending;
  decided_by = none;
  decided_at = none;
}

abbrev pub correction : ApprovalRequest
correction = record {
  id = 70;
  requester_id = 51;
  approver_id = none;
  action = "wallet.adjust";
  target_id = 2;
  amount_irr = pos 300;
  note = "a late receipt";
  status = ApprovalStatus.pending;
  expires_at = 1000;
  decided_at = none;
  decision_note = none;
}

abbrev pub binding : Binding
binding = record {
  id = 80;
  organization_id = 3;
  panel_id = 20;
  pg_admin_id = 4;
  username = "shop";
  status = Status.active;
}

abbrev pub checkpoint : Checkpoint
checkpoint = record { binding_id = 80; lifetime_bytes = 0; observed_at = 1; anomaly_count = 0 }

-- the database with one order in a status
abbrev pub db_with : OrderStatus → Db
db_with status = record {
  next_id = 100;
  bootstrap_complete = some 1;
  books = no_books;
  tenants = tenants;
  outbox = [];
  panels = server ∷ [];
  panel_owners = record { panel_id = 20; organization_id = 2 } ∷ [];
  categories = [];
  plans = plan ∷ [];
  bindings = binding ∷ [];
  checkpoints = checkpoint ∷ [];
  usages = [];
  actors = actor 50 7 "root" ∷ actor 51 8 "north" ∷ actor 52 9 "cafe" ∷ [];
  memberships = member 1 50 "reseller_admin" ∷ member 2 51 "reseller_admin" ∷ [];
  funding_requests = credit_request ∷ [];
  orders = order_in status ∷ [];
  approvals = correction ∷ [];
  audits = [];
}

abbrev pub env : Env
env = record {
  root_telegram_id = some 7;
  max_tree_depth = 32;
  approval_ttl_seconds = 86400;
  client_key = Key.client;
  first_row = λ rows. find (λ m. true) rows;
}

abbrev pub stranger : Identity
stranger = record { user_id = 9; first_name = "cafe" }

abbrev pub plan_order : OrderIn
plan_order = record {
  panel_id = 20;
  plan_id = some 30;
  business_name = "cafe";
  user_count = 1;
  daily_gib = 1;
  note = "";
}

-- a reading one GiB above the checkpoint
abbrev pub reading : UsageIn
reading = record { binding_id = 80; lifetime_bytes = 1073741824; observed_at = 2 }
