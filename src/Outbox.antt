-- ===== src/Outbox.antt =====
-- Reliable delivery, src/control_plane/outbox.py: enqueue, claim, complete, retry, reclaim_stale
-- and run_once. Times are seconds; the texts of errors are lists of characters.
pub mod Rows
pub mod Retry
pub mod Rounds
pub mod Unique
use pasarguard_control_plane.Base.{
  ℕ, zero, suc, ◌+◌, ◌-◌, ◌*◌, ◌^◌, Bool, true, false, not, ◌&&◌, ◌||◌, Option, some, none, List,
  [], ◌∷◌, ◌++◌, ◌==◌, leb, ltb, min, if◌then◌else◌, any, find, where_rows, update_where, length,
  take, Error, String, integrity_error, Result, ok, err, Action, pure, ◌>>=◌, ◌>>◌, codes,
}
use Rows.{
  Topic, topic_name, topic_eq, EventStatus, is_pending, is_claimed, Payload, Event, same_pending,
}

-- The module's constants, which the environment may set.
pub record Settings : Type 0 where
  pub max_attempts : ℕ
  pub base_backoff_seconds : ℕ
  pub max_backoff_seconds : ℕ
  pub claim_timeout_seconds : ℕ

abbrev pub defaults : Settings
defaults = record {
  max_attempts = 8;
  base_backoff_seconds = 15;
  max_backoff_seconds = 900;
  claim_timeout_seconds = 300;
}

-- A database session (app.py: SessionLocal, autoflush off): the rows that its queries see, and the
-- rows that it has added since its last flush, which they do not see.
pub record Session : Type 0 where
  pub rows : List Event
  pub added : List Event

-- Queue an event, unless the database still has a pending one for the same aggregate.
unfoldable pub enqueue : ℕ → ℕ → Topic → ℕ → Payload → Session → Option Event × Session
enqueue id now topic aggregate payload s =
    if any (same_pending topic aggregate) s.rows
    then (none, s)
    else let event : Event = record {
      id = id;
      topic = topic;
      aggregate_id = aggregate;
      payload = payload;
      status = EventStatus.pending;
      attempts = 0;
      next_attempt_at = now;
      claimed_by = none;
      claimed_at = none;
      completed_at = none;
      last_error = none;
    } in
      (some event, record s { added = event ∷ s.added })

-- ORDER BY next_attempt_at, id
pub before : Event → Event → Bool
before a b =
    ltb a.next_attempt_at b.next_attempt_at
    || (a.next_attempt_at == b.next_attempt_at && leb a.id b.id)

pub insert_ordered : Event → List Event → List Event
unfolding before
insert_ordered e [] = e ∷ []
insert_ordered e (x ∷ xs) = if before e x then e ∷ x ∷ xs else x ∷ insert_ordered e xs

pub ordered : List Event → List Event
unfolding insert_ordered
ordered [] = []
ordered (e ∷ events) = insert_ordered e (ordered events)

pub is_due : ℕ → Event → Bool
is_due now e = is_pending e.status && leb e.next_attempt_at now

pub claim_event : ℕ → ℕ → Event → Event
claim_event worker now e = record e {
  status = EventStatus.claimed;
  claimed_by = some worker;
  claimed_at = some now;
}

-- what the SELECT of `claim` returns
pub due_rows : ℕ → ℕ → List Event → List Event
unfolding ordered is_due
due_rows now limit queue = take limit (ordered (where_rows (is_due now) queue))

pub claim_all : ℕ → ℕ → List Event → List Event → List Event × List Event
unfolding claim_event
claim_all worker now [] queue = ([], queue)
claim_all worker now (e ∷ rows) queue =
    let (claimed, queue') =
      claim_all worker now rows (update_where (λ x. x.id == e.id) (claim_event worker now) queue) in
    (claim_event worker now e ∷ claimed, queue')

unfoldable pub claim : ℕ → ℕ → ℕ → List Event → List Event × List Event
unfolding due_rows claim_all
claim worker now limit queue = claim_all worker now (due_rows now limit queue) queue

unfoldable pub complete : ℕ → Event → List Event → List Event
complete now event =
    update_where (λ x. x.id == event.id)
      (λ x. record x { status = EventStatus.done; completed_at = some now; last_error = none })

unfoldable pub backoff : Settings → ℕ → ℕ
backoff c attempts = min (c.base_backoff_seconds * 2 ^ (attempts - 1)) c.max_backoff_seconds

-- the row that `retry` writes
unfoldable pub retry_event : Settings → ℕ → List ℕ → Event → Event
unfolding backoff
retry_event c now error e =
    let attempts = e.attempts + 1 in
    let failed : Event = record e {
      attempts = attempts;
      last_error = some (take 2000 error);
      claimed_by = none;
      claimed_at = none;
    } in
    if leb c.max_attempts attempts
    then record failed { status = EventStatus.dead; completed_at = some now }
    else record failed { status = EventStatus.pending; next_attempt_at = now + backoff c attempts }

-- the partial unique index: no two pending rows with one topic and aggregate
unfoldable pub unique_pending : List Event → Bool
unique_pending [] = true
unique_pending (e ∷ queue) =
    not (is_pending e.status && any (same_pending e.topic e.aggregate_id) queue)
    && unique_pending queue

-- A commit of changed rows: the database refuses rows that break the index, and keeps the old ones.
pub commit : List Event → Action (List Event) (Unit {0})
unfolding unique_pending
commit rows queue = if unique_pending rows then (ok tt, rows) else (err integrity_error, queue)

-- what a flush makes of a session's rows
unfoldable pub flush : Session → Result (Unit {0}) × List Event
unfolding commit
flush s = commit (s.added ++ s.rows) s.rows

unfoldable pub retry : Settings → ℕ → Event → List ℕ → Action (List Event) (Unit {0})
unfolding retry_event commit
retry c now event error queue =
    commit (update_where (λ x. x.id == event.id) (retry_event c now error) queue) queue

pub is_stale : ℕ → Event → Bool
is_stale cutoff e =
    is_claimed e.status && elim e.claimed_at [ none ↦ false | some at ↦ leb at cutoff ]

pub release : Event → Event
release e = record e { status = EventStatus.pending; claimed_by = none; claimed_at = none }

-- `now - timeout` is compared as `claimed_at + timeout <= now`: a time before zero claims nothing
unfoldable pub reclaim_stale : ℕ → ℕ → Action (List Event) ℕ
unfolding is_stale release commit
reclaim_stale now older_than queue =
    let stale = if ltb now older_than then [] else where_rows (is_stale (now - older_than)) queue in
    if length stale == 0
    then (ok 0, queue)
    else (commit (update_where (is_stale (now - older_than)) release queue) >> pure (length stale))
        queue

-- What a handler came to: the session with its work in it, or an exception by its text.
pub data Outcome (R : Type 0) : Type 0 where
  handled : List Event → R → Outcome R
  raised : List ℕ → Outcome R

pub record Stats : Type 0 where
  pub stale : ℕ
  pub claimed : ℕ
  pub done : ℕ
  pub retried : ℕ
  pub dead : ℕ

abbrev pub no_handler : Event → List ℕ
no_handler e = codes "no handler for topic " ++ codes (topic_name e.topic)

-- which counter a returned status goes to
pub count_retry : EventStatus → Stats → Stats
count_retry EventStatus.pending s = record s { retried = s.retried + 1 }
count_retry _ s = record s { dead = s.dead + 1 }

module _ {R : Type 0} (c : Settings)
    (handlers : Topic → Option (Event → List Event → R → Outcome R)) (now : ℕ) where
  -- a failed delivery: the session rolls back to the state before the handler, then `retry`
  pub fail : Event → List ℕ → Stats → List Event → R → Result Stats × List Event × R
  unfolding retry count_retry
  fail e text s queue rest =
      let (r, queue') = retry c now e text queue in
      (
        elim r [ ok _ ↦ ok (count_retry (retry_event c now text e).status s) | err x ↦ err x ],
        queue',
        rest,
      )

  -- behind a handler: completion, or rollback and retry
  pub after_handler : Event → Stats → List Event → R → Outcome R → Result Stats × List Event × R
  unfolding fail complete
  after_handler e s queue rest (Outcome.raised text) = fail e text s queue rest
  after_handler e s queue rest (Outcome.handled queue' rest') =
      (ok (record s { done = s.done + 1 }), complete now e queue', rest')

  -- one round of the loop of `run_once`
  pub deliver : Event → Stats → List Event → R → Result Stats × List Event × R
  unfolding after_handler fail
  deliver e s queue rest =
      let seen = record s { claimed = s.claimed + 1 } in
      elim (handlers e.topic) [
        | none ↦ fail e (no_handler e) seen queue rest
        | some handler ↦ after_handler e seen queue rest (handler e queue rest)
      ]

  -- the rounds in order; an exception of `retry` itself is not caught
  pub deliver_all : List Event → Stats → List Event → R → Result Stats × List Event × R
  unfolding deliver
  deliver_all [] s queue rest = (ok s, queue, rest)
  deliver_all (e ∷ events) s queue rest =
      let (r, queue', rest') = deliver e s queue rest in
      elim r [ ok s' ↦ deliver_all events s' queue' rest' | err x ↦ (err x, queue', rest') ]

  unfoldable pub run_once : ℕ → ℕ → List Event → R → Result Stats × List Event × R
  unfolding deliver_all reclaim_stale claim
  run_once worker limit queue rest =
      let (r, queue') = reclaim_stale now c.claim_timeout_seconds queue in
      elim r [
        | err x ↦ (err x, queue', rest)
        | ok n ↦
            let (events, queue'') = claim worker now limit queue' in
            deliver_all events (record { stale = n; claimed = 0; done = 0; retried = 0; dead = 0 })
              queue'' rest
      ]
