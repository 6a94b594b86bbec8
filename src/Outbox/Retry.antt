-- ===== src/Outbox/Retry.antt =====
-- The fate of a failed delivery (outbox.py: retry): backoff, the dead letter, and how many failures
-- an event has before it.
use pasarguard_control_plane.Base.{
  ℕ, Bool-cases, leb, ==_refl, Result, ok, err, inl, inr, ◌∙◌, refl, false, true, zero, suc, ◌+◌,
  ◌-◌, ◌*◌, ◌^◌, ◌≤◌, ◌<◌, ◌≡◌, ◌⊎◌, Option, some, none, List, arith, min, length, take, ◌∷◌, [],
  ap,
}
use pasarguard_control_plane.Outbox.{
  Settings, Outcome, Stats, claim_event, claim_all, due_rows, claim, commit, unique_pending, retry,
  retry_event, run_once, is_stale, is_due, reclaim_stale, count_retry, deliver_all, deliver,
  after_handler, fail,
}
use pasarguard_control_plane.Outbox.Rows.{Topic, EventStatus, Event, is_claimed}

length-take-le : (n : ℕ) (xs : List ℕ) → length (take n xs) ≤ n
length-take-le zero xs = omega arith
length-take-le (suc n) [] = omega arith
length-take-le (suc n) (x ∷ xs) = omega (arith, length-take-le n xs)

-- What a failure leaves of an event: it is nobody's, has one more attempt and a cut error, and is
-- dead from the last attempt on, else due again after its backoff.
pub record IsFailed (c : Settings) (now : ℕ) (e e' : Event) : Type 0 where
  pub identity : (e'.id ≡ e.id) × (e'.topic ≡ e.topic) × (e'.aggregate_id ≡ e.aggregate_id)
  pub counted : e'.attempts ≡ e.attempts + 1
  pub unowned : (e'.claimed_by ≡ none) × (e'.claimed_at ≡ none)
  pub fate :
      ((c.max_attempts ≤ e.attempts + 1)
        × (e'.status ≡ EventStatus.dead)
        × (e'.completed_at ≡ some now))
      ⊎ ((e.attempts + 1 < c.max_attempts)
          × (e'.status ≡ EventStatus.pending)
          × (e'.next_attempt_at
              ≡ now + min (c.base_backoff_seconds * 2 ^ e.attempts) c.max_backoff_seconds))

-- Every failed delivery ends as `IsFailed` says, and keeps at most 2000 characters of the error.
pub retry_event-IsFailed :
    (c : Settings) (now : ℕ) (error : List ℕ) (e : Event)
    → IsFailed c now e (retry_event c now error e)
      × ((t : List ℕ) → (retry_event c now error e).last_error ≡ some t → length t ≤ 2000)
unfolding retry_event
retry_event-IsFailed c now error e =
    let same : e.attempts + 1 - 1 ≡ e.attempts = omega arith in
    (ground (arith, ap (λ (a : ℕ). 2 ^ a) same), λ t h. ground (arith, length-take-le 2000 error))

-- handlers that fail with the given error
abbrev always_raises : List ℕ → Topic → Option (Event → List Event → ℕ → Outcome ℕ)
always_raises error topic = some (λ e queue rest. Outcome.raised error)

-- runs of the worker, each at a time and with handlers that fail with an error
pub run_all : Settings → ℕ → ℕ → List (ℕ × List ℕ) → List Event → List Event
unfolding run_once
run_all c worker limit [] queue = queue
run_all c worker limit ((now, error) ∷ runs) queue =
    run_all c worker limit runs (run_once c (always_raises error) now worker limit queue 0).1

-- the first run is not before `from`, and each later one comes at least the longest backoff later
abbrev pub IsSpaced : Settings → ℕ → List (ℕ × List ℕ) → Type 0
IsSpaced c from [] = Unit
IsSpaced c from ((now, error) ∷ runs) = (from ≤ now) × IsSpaced c (now + c.max_backoff_seconds) runs

abbrev fresh : Stats
fresh = record { stale = 0; claimed = 0; done = 0; retried = 0; dead = 0 }

nothing_stale :
    (now older : ℕ) (e : Event)
    → is_claimed e.status ≡ false
    → reclaim_stale now older (e ∷ []) ≡ (ok 0, e ∷ [])
unfolding reclaim_stale is_stale
nothing_stale now older e h = ground (arith, h)

take-nil : (n : ℕ) → take {A = Event} n [] ≡ []
take-nil zero = refl
take-nil (suc n) = refl

claim-one :
    (worker now limit : ℕ) (e : Event)
    → 0 < limit
    → e.status ≡ EventStatus.pending
    → e.next_attempt_at ≤ now
    → claim worker now limit (e ∷ [])
      ≡ (claim_event worker now e ∷ [], claim_event worker now e ∷ [])
unfolding claim due_rows claim_all is_due
claim-one worker now zero e positive waits due = absurd (omega arith)
claim-one worker now (suc limit) e positive waits due =
    let in_time : leb e.next_attempt_at now ≡ true = ground arith in
    rw (waits, in_time, take-nil limit, ==_refl e.id) refl

claim-none :
    (worker now limit : ℕ) (e : Event)
    → e.status ≡ EventStatus.dead
    → claim worker now limit (e ∷ []) ≡ ([], e ∷ [])
unfolding claim due_rows claim_all is_due
claim-none worker now zero e dead = rw dead refl
claim-none worker now (suc limit) e dead = rw dead refl

-- a single row never breaks the index
commit-one : (e old : Event) → commit (e ∷ []) (old ∷ []) ≡ (ok tt, e ∷ [])
unfolding commit unique_pending
commit-one e old = ground arith

IsSpaced-earlier :
    (c : Settings) (runs : List (ℕ × List ℕ)) {from from' : ℕ}
    → from ≤ from'
    → IsSpaced c from' runs
    → IsSpaced c from runs
IsSpaced-earlier c [] h s = tt
IsSpaced-earlier c (run ∷ runs) h s = (omega (arith, s.0), s.1)

-- what so many failed deliveries leave of an event
abbrev pub Fate : Settings → ℕ → Event → Event → Type 0
Fate c n e e' =
    ((e.attempts + n < c.max_attempts)
      × (e'.status ≡ EventStatus.pending)
      × (e'.attempts ≡ e.attempts + n))
    ⊎ ((c.max_attempts ≤ e.attempts + n)
        × (e'.status ≡ EventStatus.dead)
        × (e'.attempts ≡ c.max_attempts))

module _ (c : Settings) (worker limit : ℕ) (positive : 0 < limit) where
  delivery :
      (now : ℕ) (error : List ℕ) (e : Event) (s : Stats)
      → deliver c (always_raises error) now e s (e ∷ []) 0 ≡ (
        ok (count_retry (retry_event c now error e).status (record s { claimed = s.claimed + 1 })),
        retry_event c now error e ∷ [],
        0,
      )
  unfolding deliver after_handler fail retry
  delivery now error e s =
      let recorded : retry c now e error (e ∷ []) ≡ (ok tt, retry_event c now error e ∷ []) =
        rw (==_refl e.id) (commit-one (retry_event c now error e) e) in
      ap
        (λ z. (
          elim z.0 as (λ _. Result Stats) [
            | ok _ ↦ ok (
                count_retry (retry_event c now error e).status
                  (record s { claimed = s.claimed + 1 }))
            | err x ↦ err x
          ],
          z.1,
          0,
        ))
        recorded

  delivered :
      (now : ℕ) (error : List ℕ) (e : Event) (s : Stats)
      → (deliver_all c (always_raises error) now (e ∷ []) s (e ∷ []) 0).1
        ≡ retry_event c now error e ∷ []
  unfolding deliver_all
  delivered now error e s =
      ap
        (λ z.
          (elim z.0 as (λ _. Result Stats × List Event × ℕ) [
            | ok s' ↦ (ok s', z.1, z.2)
            | err x ↦ (err x, z.1, z.2)
          ]).1)
        (delivery now error e s)

  run_lem :
      (now : ℕ) (error : List ℕ) (e : Event) {rows queue : List Event}
      → is_claimed e.status ≡ false
      → claim worker now limit (e ∷ []) ≡ (rows, queue)
      → (run_once c (always_raises error) now worker limit (e ∷ []) 0).1
        ≡ (deliver_all c (always_raises error) now rows fresh queue 0).1
  unfolding run_once
  run_lem now error e free claimed =
      ap
        (λ z.
          (elim z.0 as (λ _. Result Stats × List Event × ℕ) [
            | err x ↦ (err x, z.1, 0)
            | ok n ↦
                let (events, queue) = claim worker now limit z.1 in
                deliver_all c (always_raises error) now events (record fresh { stale = n }) queue 0
          ]).1)
        (nothing_stale now c.claim_timeout_seconds e free)
      ∙ ap (λ z. (deliver_all c (always_raises error) now z.0 fresh z.1 0).1) claimed

  -- a run that finds its one row due claims it, fails, and commits the failure
  failed_run :
      (now : ℕ) (error : List ℕ) (e : Event)
      → e.status ≡ EventStatus.pending
      → e.next_attempt_at ≤ now
      → (run_once c (always_raises error) now worker limit (e ∷ []) 0).1
        ≡ retry_event c now error (claim_event worker now e) ∷ []
  failed_run now error e waits due =
      run_lem now error e (rw waits refl) (claim-one worker now limit e positive waits due)
      ∙ delivered now error (claim_event worker now e) fresh

  -- a run finds nothing to do with a dead row
  idle_run :
      (now : ℕ) (error : List ℕ) (e : Event)
      → e.status ≡ EventStatus.dead
      → (run_once c (always_raises error) now worker limit (e ∷ []) 0).1 ≡ e ∷ []
  unfolding deliver_all
  idle_run now error e dead =
      run_lem now error e (rw dead refl) (claim-none worker now limit e dead)

  -- the rest of some runs, from a row that is dead
  stays_dead :
      (runs : List (ℕ × List ℕ)) (e : Event)
      → e.status ≡ EventStatus.dead
      → run_all c worker limit runs (e ∷ []) ≡ e ∷ []
  unfolding run_all
  stays_dead [] e dead = refl
  stays_dead ((now, error) ∷ runs) e dead =
      ap (run_all c worker limit runs) (idle_run now error e dead) ∙ stays_dead runs e dead

  Fate-shift :
      (n : ℕ) (e next e' : Event)
      → next.attempts ≡ e.attempts + 1
      → Fate c n next e'
      → Fate c (suc n) e e'
  Fate-shift n e next e' counted (inl (few, waits, same)) = inl (omega arith, waits, omega arith)
  Fate-shift n e next e' counted (inr (many, dead, same)) = inr (omega arith, dead, same)

  -- The only row of the queue is pending, with attempts left, and every delivery of it fails, in
  -- runs of the worker that claim up to some positive number of rows, at least the longest backoff
  -- apart and the first not before the row is due. After any number of
  -- runs the queue is that row again. As long as the runs with its earlier attempts are fewer than
  -- the limit, the row is pending and counts them all; from the run on that reaches the limit it is
  -- dead, with exactly as many attempts as the limit.
  pub run_all-dead :
      (runs : List (ℕ × List ℕ)) (e : Event)
      → e.status ≡ EventStatus.pending
      → e.attempts < c.max_attempts
      → IsSpaced c e.next_attempt_at runs
      → (e' : Event) × (run_all c worker limit runs (e ∷ []) ≡ e' ∷ [])
        × (e'.id ≡ e.id)
        × Fate c (length runs) e e'
  unfolding run_all retry_event claim_event
  run_all-dead [] e waits left spaced = (e, refl, refl, inl (omega arith, waits, omega arith))
  run_all-dead ((now, error) ∷ runs) e waits left (due, spaced) =
      let next = retry_event c now error (claim_event worker now e) in
      let first : run_all c worker limit ((now, error) ∷ runs) (e ∷ [])
          ≡ run_all c worker limit runs (next ∷ []) =
        ap (run_all c worker limit runs) (failed_run now error e waits due) in
      elim (Bool-cases (leb c.max_attempts (e.attempts + 1))) [
        | inl last ↦
            let reached : c.max_attempts ≤ e.attempts + 1 = ground arith in
            (
              next,
              first ∙ stays_dead runs next (rw last refl),
              rw last refl,
              inr (omega arith, rw last refl, rw last (omega arith)),
            )
        | inr more ↦
            let short : e.attempts + 1 < c.max_attempts = ground arith in
            let counted : next.attempts ≡ e.attempts + 1 = rw more refl in
            let (e', same, id, fate) =
              run_all-dead runs next (rw more refl) (rw more (omega arith))
                (IsSpaced-earlier c runs (rw more (omega arith)) spaced) in
            (e', first ∙ same, id ∙ rw more refl, Fate-shift (length runs) e next e' counted fate)
      ]
