-- ===== src/Outbox/Unique.antt =====
-- One pending event for each topic and aggregate (outbox.py: enqueue, retry, reclaim_stale, and the
-- partial unique index of migrations/004_ledger_hardening.sql).
use pasarguard_control_plane.Base.{
  ==_refl, ℕ, ap, ◌∙◌, if◌then◌else◌, ◌≡◌, refl, ◌≢◌, true, not, Option, some, List, ◌∷◌, arith,
  inl, inr, any, is_some, Bool-cases, err, integrity_error, ◌+◌, ◌-◌, ◌==◌, ltb, ◌<◌, ◌≤◌, ◌⊎◌,
  ◌||◌, ◌++◌, [], Bool, false, ok, length, where_rows, update_where,
}
use pasarguard_control_plane.Outbox.{
  Settings, Session, enqueue, flush, unique_pending, commit, retry, is_stale, release,
  reclaim_stale, run_once, Outcome,
}
use pasarguard_control_plane.Outbox.Rows.{
  Topic, topic_eq, EventStatus, is_pending, Payload, Event, same_pending,
}

topic_eq_refl : (t : Topic) → topic_eq t t ≡ true
topic_eq_refl Topic.billing_hold_required = refl
topic_eq_refl _ = refl

-- a commit keeps the index whatever it is handed
pub commit_unique :
    (rows queue : List Event)
    → unique_pending queue ≡ true
    → unique_pending (commit rows queue).1 ≡ true
unfolding commit
commit_unique rows queue h = ground arith

any-++ : (p : Event → Bool) (xs ys : List Event) → any p (xs ++ ys) ≡ (any p xs || any p ys)
any-++ p [] ys = refl
any-++ p (x ∷ xs) ys = ground (arith, any-++ p xs ys)

enqueue-rows :
    (id now : ℕ) (topic : Topic) (aggregate : ℕ) (payload : Payload) (s : Session)
    → (enqueue id now topic aggregate payload s).1.rows ≡ s.rows
unfolding enqueue
enqueue-rows id now topic aggregate payload s = ground arith

flush_unique :
    (id now : ℕ) (topic : Topic) (aggregate : ℕ) (payload : Payload) (s : Session)
    → unique_pending s.rows ≡ true
    → unique_pending (flush (enqueue id now topic aggregate payload s).1).1 ≡ true
unfolding flush
flush_unique id now topic aggregate payload s h =
    let s' = (enqueue id now topic aggregate payload s).1 in
    commit_unique (s'.added ++ s'.rows) s'.rows
      (ap unique_pending (enqueue-rows id now topic aggregate payload s) ∙ h)

-- What the flush behind an `enqueue` comes to, in a session whose rows have one pending event for
-- each topic and aggregate. It never leaves two. The event is added exactly where the database has
-- none pending for its topic and aggregate, and if it is the session's first the flush goes
-- through, with one pending for them. The session does not see what it has added itself: queueing
-- twice for the same topic and aggregate makes the flush fail, and the rows stay as they were.
pub enqueue_unique :
    (id now : ℕ) (topic : Topic) (aggregate : ℕ) (payload : Payload) (s : Session)
    → unique_pending s.rows ≡ true
    → let (event, s') = enqueue id now topic aggregate payload s in
      (unique_pending (flush s').1 ≡ true)
      × (is_some event ≡ not (any (same_pending topic aggregate) s.rows))
      × (s.added ≡ []
          → (flush s' ≡ (ok tt, s'.added ++ s.rows))
            × (any (same_pending topic aggregate) (flush s').1 ≡ true))
      × (any (same_pending topic aggregate) s.rows ≡ false
          → any (same_pending topic aggregate) s.added ≡ true
          → flush s' ≡ (err integrity_error, s.rows))
unfolding enqueue flush unique_pending commit
enqueue_unique id now topic aggregate payload s h =
    let safe : unique_pending (flush (enqueue id now topic aggregate payload s).1).1 ≡ true =
      flush_unique id now topic aggregate payload s h in
    elim (Bool-cases (any (same_pending topic aggregate) s.rows)) [
      | inl waits ↦
          rw waits (rw waits at safe, refl, λ first. rw (first, h, waits) (refl, refl), λ e. cc)
      | inr free ↦ rw free (
        rw free at safe,
        refl,
        λ first. rw (first, free, h) (refl, rw (topic_eq_refl topic, ==_refl aggregate) refl),
        λ e twice. rw (any-++ (same_pending topic aggregate) s.added s.rows, twice) refl,
      )
    ]

-- A row that waits, and a claimed row for the same topic and aggregate: what a hold leaves that is
-- queued while an earlier one is being delivered.
pub record Overtaken (waiting claimed : Event) : Type 0 where
  pub waits : waiting.status ≡ EventStatus.pending
  pub held : claimed.status ≡ EventStatus.claimed
  pub topic : claimed.topic ≡ waiting.topic
  pub aggregate : claimed.aggregate_id ≡ waiting.aggregate_id
  pub apart : waiting.id ≢ claimed.id

-- If an event is queued for the topic and aggregate of a claimed one, a failed delivery of the
-- claimed one with attempts left cannot be recorded: the index refuses the second pending row, and
-- `retry` raises and leaves the row claimed.
pub retry-refused :
    (c : Settings) (now : ℕ) (error : List ℕ) (waiting claimed : Event) (rest : List Event)
    → Overtaken waiting claimed
    → claimed.attempts + 1 < c.max_attempts
    → retry c now claimed error (waiting ∷ claimed ∷ rest)
      ≡ (err integrity_error, waiting ∷ claimed ∷ rest)
unfolding retry unique_pending
retry-refused c now error waiting claimed rest o left = ground (arith, topic_eq_refl waiting.topic)

where_rows-some :
    (p : Event → Bool) (xs : List Event) → any p xs ≡ true → (length (where_rows p xs) == 0) ≡ false
where_rows-some p [] h = cc
where_rows-some p (x ∷ xs) h = ground (arith, where_rows-some p xs)

reclaim-refused :
    (now older : ℕ) (queue : List Event)
    → older ≤ now
    → any (is_stale (now - older)) queue ≡ true
    → unique_pending (update_where (is_stale (now - older)) release queue) ≡ false
    → reclaim_stale now older queue ≡ (err integrity_error, queue)
unfolding reclaim_stale commit
reclaim-refused now older queue early some_stale twice =
    let in_time : ltb now older ≡ false = ground arith in
    let rows : (length (where_rows (is_stale (now - older)) queue) == 0) ≡ false =
      where_rows-some (is_stale (now - older)) queue some_stale in
    rw (in_time, rows, twice) refl

-- two rows for one topic and aggregate that are both pending break the index, wherever they are
unique_pending-twice :
    (xs ys zs : List Event) (a b : Event)
    → is_pending a.status ≡ true
    → same_pending a.topic a.aggregate_id b ≡ true
    → unique_pending (xs ++ a ∷ (ys ++ b ∷ zs)) ≡ false
unfolding unique_pending
unique_pending-twice [] ys zs a b p same =
    rw (p, any-++ (same_pending a.topic a.aggregate_id) ys (b ∷ zs), same) (ground arith)
unique_pending-twice (x ∷ xs) ys zs a b p same =
    ground (arith, unique_pending-twice xs ys zs a b p same)

-- The queue has both rows, in either order, wherever they are.
abbrev pub HasBoth : Event → Event → List Event → Type 0
HasBoth a b queue =
    (xs ys zs : List Event) × ((queue ≡ xs ++ a ∷ (ys ++ b ∷ zs))
      ⊎ (queue ≡ xs ++ b ∷ (ys ++ a ∷ zs)))

update_where-++ :
    (p : Event → Bool) (f : Event → Event) (xs ys : List Event)
    → update_where p f (xs ++ ys) ≡ update_where p f xs ++ update_where p f ys
update_where-++ p f [] ys = refl
update_where-++ p f (x ∷ xs) ys = ap (λ l. (if p x then f x else x) ∷ l) (update_where-++ p f xs ys)

any-pair :
    (p : Event → Bool) (xs ys zs : List Event) (a b : Event)
    → (p a ≡ true) ⊎ (p b ≡ true)
    → any p (xs ++ a ∷ (ys ++ b ∷ zs)) ≡ true
any-pair p [] ys zs a b h = rw (any-++ p ys (b ∷ zs)) (ground arith)
any-pair p (x ∷ xs) ys zs a b h = ground (arith, any-pair p xs ys zs a b h)

module _ (cutoff : ℕ) where
  after_release : Event → Event
  after_release e = if is_stale cutoff e then release e else e

  released : List Event → List Event
  released = update_where (is_stale cutoff) release

  -- both rows keep their places when the stale ones are released
  release_pair :
      (xs ys zs : List Event) (a b : Event)
      → released (xs ++ a ∷ (ys ++ b ∷ zs))
        ≡ released xs ++ after_release a ∷ (released ys ++ after_release b ∷ released zs)
  unfolding after_release released
  release_pair xs ys zs a b =
      update_where-++ (is_stale cutoff) release xs (a ∷ (ys ++ b ∷ zs))
      ∙ ap (λ l. released xs ++ after_release a ∷ l)
          (update_where-++ (is_stale cutoff) release ys (b ∷ zs))

  module _ (at : ℕ) (waiting claimed : Event) (o : Overtaken waiting claimed)
      (claim_time : claimed.claimed_at ≡ some at) (late : at ≤ cutoff) where
    claimed_stale : is_stale cutoff claimed ≡ true
    unfolding is_stale
    claimed_stale = ground (arith, o.held, claim_time, late)

    waiting_stays : after_release waiting ≡ waiting
    unfolding after_release is_stale
    waiting_stays = rw o.waits refl

    claimed_goes : after_release claimed ≡ release claimed
    unfolding after_release
    claimed_goes = rw claimed_stale refl

    both_stale :
        (queue : List Event) → HasBoth waiting claimed queue → any (is_stale cutoff) queue ≡ true
    both_stale queue (xs, ys, zs, inl e) =
        rw e (any-pair (is_stale cutoff) xs ys zs waiting claimed (inr claimed_stale))
    both_stale queue (xs, ys, zs, inr e) =
        rw e (any-pair (is_stale cutoff) xs ys zs claimed waiting (inl claimed_stale))

    both_pending :
        (queue : List Event)
        → HasBoth waiting claimed queue
        → unique_pending (update_where (is_stale cutoff) release queue) ≡ false
    unfolding release released
    both_pending queue (xs, ys, zs, inl e) =
        rw (e, release_pair xs ys zs waiting claimed, waiting_stays, claimed_goes)
          (unique_pending-twice (released xs) (released ys) (released zs) waiting (release claimed)
            (rw o.waits refl)
            (rw (o.topic, o.aggregate, topic_eq_refl waiting.topic, ==_refl waiting.aggregate_id)
              refl))
    both_pending queue (xs, ys, zs, inr e) =
        rw (e, release_pair xs ys zs claimed waiting, waiting_stays, claimed_goes)
          (unique_pending-twice (released xs) (released ys) (released zs) (release claimed) waiting
            refl
            (rw
              (
                o.waits,
                o.topic,
                o.aggregate,
                topic_eq_refl waiting.topic,
                ==_refl waiting.aggregate_id,
              )
              refl))

-- Wherever in the table a row that waits and a claimed one for the same topic and aggregate stand:
-- from the claim timeout of the claimed row on, every run of the worker raises before it claims
-- anything, and leaves the queue and the rest of the database as they were: nothing is delivered.
pub run_once-stalls :
    {R : Type 0} (c : Settings) (handlers : Topic → Option (Event → List Event → R → Outcome R))
    (now worker limit at : ℕ) (waiting claimed : Event) (queue : List Event) (others : R)
    → Overtaken waiting claimed
    → HasBoth waiting claimed queue
    → claimed.claimed_at ≡ some at
    → at + c.claim_timeout_seconds ≤ now
    → run_once c handlers now worker limit queue others ≡ (err integrity_error, queue, others)
unfolding run_once
run_once-stalls c handlers now worker limit at waiting claimed queue others o both claim_time late =
    let cutoff = now - c.claim_timeout_seconds in
    let soon : at ≤ cutoff = omega arith in
    let refused : reclaim_stale now c.claim_timeout_seconds queue ≡ (err integrity_error, queue) =
      reclaim-refused now c.claim_timeout_seconds queue (omega arith)
        (both_stale cutoff at waiting claimed o claim_time soon queue both)
        (both_pending cutoff at waiting claimed o claim_time soon queue both) in
    rw (refused, run_once) (ap (λ z. (err integrity_error, z.1, others)) refused)
