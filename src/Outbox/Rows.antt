-- ===== src/Outbox/Rows.antt =====
-- The rows of the outbox (src/control_plane/app.py: Outbox) and the payloads that are queued.
use pasarguard_control_plane.Base.{ℕ, String, Bool, true, false, ◌&&◌, Option, List, ◌==◌}

pub data Topic : Type 0 where
  billing_hold_required usage_reset_detected approval_granted support_ticket : Topic
  panel_order_approved : Topic

abbrev pub topic_eq : Topic → Topic → Bool
topic_eq Topic.billing_hold_required Topic.billing_hold_required = true
topic_eq Topic.usage_reset_detected Topic.usage_reset_detected = true
topic_eq Topic.approval_granted Topic.approval_granted = true
topic_eq Topic.support_ticket Topic.support_ticket = true
topic_eq Topic.panel_order_approved Topic.panel_order_approved = true
topic_eq _ _ = false

abbrev pub topic_name : Topic → String
topic_name Topic.billing_hold_required = "billing.hold_required"
topic_name Topic.usage_reset_detected = "usage.reset_detected"
topic_name Topic.approval_granted = "approval.granted"
topic_name Topic.support_ticket = "support.ticket"
topic_name Topic.panel_order_approved = "panel_order.approved"

pub data EventStatus : Type 0 where
  pending claimed done dead : EventStatus

abbrev pub is_pending : EventStatus → Bool
is_pending EventStatus.pending = true
is_pending _ = false

abbrev pub is_claimed : EventStatus → Bool
is_claimed EventStatus.claimed = true
is_claimed _ = false

-- The JSON that each producer queues.
pub data Payload : Type 0 where
  -- organization_id, amount_irr
  hold : ℕ → ℕ → Payload
  -- organization_id, lifetime_bytes
  reset : ℕ → ℕ → Payload
  -- action and status of an approval
  approval : Bool → Payload
  -- organization_id, telegram_actor_id
  order : ℕ → ℕ → Payload
  -- the text of a ticket
  ticket : List ℕ → Payload

pub record Event : Type 0 where
  pub id : ℕ
  pub topic : Topic
  pub aggregate_id : ℕ
  pub payload : Payload
  pub status : EventStatus
  pub attempts : ℕ
  pub next_attempt_at : ℕ
  pub claimed_by : Option ℕ
  pub claimed_at : Option ℕ
  pub completed_at : Option ℕ
  pub last_error : Option (List ℕ)

-- what the partial unique index of migrations/004_ledger_hardening.sql compares
abbrev pub same_pending : Topic → ℕ → Event → Bool
same_pending topic aggregate e =
    is_pending e.status && (topic_eq e.topic topic && e.aggregate_id == aggregate)
