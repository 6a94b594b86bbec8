-- ===== src/Store/Rows.antt =====
-- The rows of src/control_plane/app.py that no component keeps for itself.
use pasarguard_control_plane.Base.{ℕ, ◌*◌, String, Bool, true, false, Option, List, ℤ}

-- the text columns that hold "active" or one other word
pub data Status : Type 0 where
  active inactive : Status

abbrev pub is_active : Status → Bool
is_active Status.active = true
is_active Status.inactive = false

-- `usage_coefficient` in ten-thousandths; the credentials stay with the panel client
pub record Panel : Type 0 where
  pub id : ℕ
  pub name : String
  pub base_url : String
  pub vendor : String
  pub usage_coefficient : ℕ
  pub verify_tls : Bool
  pub status : Status
  pub saleable : Bool

pub record PanelOwner : Type 0 where
  pub panel_id : ℕ
  pub organization_id : ℕ

pub record PlanCategory : Type 0 where
  pub id : ℕ
  pub organization_id : ℕ
  pub name : String
  pub description : String
  pub status : Status

pub record Plan : Type 0 where
  pub id : ℕ
  pub organization_id : ℕ
  pub panel_id : ℕ
  pub category_id : Option ℕ
  pub name : String
  pub description : String
  pub price_per_gib_irr : ℕ
  pub daily_gib : ℕ
  pub duration_days : ℕ
  pub user_count : ℕ
  pub credit_limit_irr : ℕ
  pub payment_instructions : String
  pub status : Status

-- never stored: computed on every read
unfoldable pub amount_irr : Plan → ℕ
amount_irr p = p.price_per_gib_irr * p.daily_gib * p.duration_days

pub record Binding : Type 0 where
  pub id : ℕ
  pub organization_id : ℕ
  pub panel_id : ℕ
  pub pg_admin_id : ℕ
  pub username : String
  pub status : Status

pub record Checkpoint : Type 0 where
  pub binding_id : ℕ
  pub lifetime_bytes : ℕ
  pub observed_at : ℕ
  pub anomaly_count : ℕ

pub data UsageStatus : Type 0 where
  baseline regression reset_baseline accepted : UsageStatus

pub record Usage : Type 0 where
  pub binding_id : ℕ
  pub lifetime_bytes : ℕ
  pub delta_bytes : ℕ
  pub status : UsageStatus
  pub observed_at : ℕ

pub record Actor : Type 0 where
  pub id : ℕ
  pub telegram_id : ℕ
  pub display_name : String
  pub status : Status

pub record Membership : Type 0 where
  pub organization_id : ℕ
  pub actor_id : ℕ
  pub role : String
  pub status : Status

pub data FundingStatus : Type 0 where
  pending approved rejected : FundingStatus

pub record FundingRequest : Type 0 where
  pub id : ℕ
  pub organization_id : ℕ
  pub actor_id : ℕ
  pub amount_irr : ℕ
  pub status : FundingStatus
  pub decided_by : Option ℕ
  pub decided_at : Option ℕ

-- `ORDER_STATES`
pub data OrderStatus : Type 0 where
  pending quoted confirmed payment_declared approved rejected cancelled : OrderStatus

pub record PanelOrder : Type 0 where
  pub id : ℕ
  pub actor_id : ℕ
  pub panel_id : ℕ
  pub plan_id : Option ℕ
  pub business_name : String
  pub slug : String
  pub user_count : ℕ
  pub daily_gib : ℕ
  pub note : String
  pub status : OrderStatus
  pub credit_limit_irr : ℕ
  pub price_per_gib_irr : ℕ
  pub amount_irr : ℕ
  pub payment_instructions : String
  pub admin_username : String
  pub pg_admin_id : Option ℕ
  pub organization_id : Option ℕ
  pub decided_by : Option ℕ
  pub decided_at : Option ℕ
  pub rejection_reason : String

-- the values in the JSON of an audit row
pub data Detail : Type 0 where
  null : Detail
  num : ℕ → Detail
  signed : ℤ → Detail
  flag : Bool → Detail
  text : String → Detail
  -- the payload of an approval: amount_irr and note
  payload : ℤ → String → Detail

pub record AuditLog : Type 0 where
  pub id : ℕ
  pub actor_id : Option ℕ
  pub organization_id : Option ℕ
  pub action : String
  pub target_type : String
  pub target_id : Option ℕ
  pub details : List (String × Detail)

pub data ApprovalStatus : Type 0 where
  pending rejected executed expired : ApprovalStatus

-- The payload of a wallet adjustment is its amount and its note.
pub record ApprovalRequest : Type 0 where
  pub id : ℕ
  pub requester_id : ℕ
  pub approver_id : Option ℕ
  pub action : String
  pub target_id : ℕ
  pub amount_irr : ℤ
  pub note : String
  pub status : ApprovalStatus
  pub expires_at : ℕ
  pub decided_at : Option ℕ
  pub decision_note : Option String
