-- ===== src/Tests/Queue.antt =====
-- Runs of the outbox.
use pasarguard_control_plane.Base.{
  ℕ, ◌≡◌, refl, true, false, not, any, is_some, Option, some, none, List, [], ◌∷◌, ◌++◌, inr, arith,
  ok, err, integrity_error,
}
use pasarguard_control_plane.Outbox.{
  defaults, Session, enqueue, flush, unique_pending, run_once, Outcome,
}
use pasarguard_control_plane.Outbox.Rows.{Topic, Payload, EventStatus, Event, same_pending}
use pasarguard_control_plane.Outbox.Retry.{run_all, Fate, run_all-dead}
use pasarguard_control_plane.Outbox.Unique.{enqueue_unique, Overtaken, run_once-stalls}

abbrev hold_event : ℕ → EventStatus → ℕ → Option ℕ → Event
hold_event id status attempts claimed_at = record {
  id = id;
  topic = Topic.billing_hold_required;
  aggregate_id = 80;
  payload = Payload.hold 2 500;
  status = status;
  attempts = attempts;
  next_attempt_at = 10;
  claimed_by = none;
  claimed_at = claimed_at;
  completed_at = none;
  last_error = none;
}

abbrev waiting : Event
waiting = hold_event 2 EventStatus.pending 0 none

abbrev claimed : Event
claimed = hold_event 1 EventStatus.claimed 0 (some 20)

overtaken : Overtaken waiting claimed
overtaken = record {
  waits = refl;
  held = refl;
  topic = refl;
  aggregate = refl;
  apart = ground arith;
}

one_waits : unique_pending (waiting ∷ []) ≡ true
unfolding unique_pending
one_waits = refl

-- nothing added yet, and one hold for the binding waits
abbrev session : Session
session = record { rows = waiting ∷ []; added = [] }

enqueue_unique_example :
    let (event, s') = enqueue 3 30 Topic.billing_hold_required 80 (Payload.hold 2 900) session in
    (unique_pending (flush s').1 ≡ true)
    × (is_some event ≡ not (any (same_pending Topic.billing_hold_required 80) session.rows))
    × (session.added ≡ []
        → (flush s' ≡ (ok tt, s'.added ++ session.rows))
          × (any (same_pending Topic.billing_hold_required 80) (flush s').1 ≡ true))
    × (any (same_pending Topic.billing_hold_required 80) session.rows ≡ false
        → any (same_pending Topic.billing_hold_required 80) session.added ≡ true
        → flush s' ≡ (err integrity_error, session.rows))
enqueue_unique_example =
    enqueue_unique 3 30 Topic.billing_hold_required 80 (Payload.hold 2 900) session one_waits

-- two attempts from the limit of eight, and three failing runs
abbrev tired : Event
tired = hold_event 1 EventStatus.pending 6 none

abbrev failing_runs : List (ℕ × List ℕ)
failing_runs = (30, 110 ∷ []) ∷ (930, []) ∷ (1830, []) ∷ []

run_all-dead_example :
    (e' : Event) × (run_all defaults 9 5 failing_runs (tired ∷ []) ≡ e' ∷ [])
    × (e'.id ≡ 1)
    × Fate defaults 3 tired e'
run_all-dead_example =
    run_all-dead defaults 9 5 (ground arith) failing_runs tired refl (ground arith)
      (ground arith, (ground arith, (ground arith, tt)))

-- a handler that always raises
abbrev always_down : Topic → Option (Event → List Event → ℕ → Outcome ℕ)
always_down topic = some (λ e queue n. Outcome.raised (110 ∷ []))

-- the claimed row first, another between, and the waiting row last
abbrev crowded : List Event
crowded = claimed ∷ hold_event 3 EventStatus.done 1 none ∷ waiting ∷ []

run_once-stalls_example :
    run_once defaults always_down 400 9 5 crowded 0 ≡ (err integrity_error, crowded, 0)
run_once-stalls_example =
    run_once-stalls defaults always_down 400 9 5 20 waiting claimed crowded 0 overtaken
      ([], hold_event 3 EventStatus.done 1 none ∷ [], [], inr refl) refl (ground arith)

abbrev after_run : List Event
after_run = (run_once defaults always_down 30 9 5 (waiting ∷ []) 0).1
