-- ===== src/Outbox/Rounds.antt =====
-- What one run of the worker takes and counts (outbox.py: claim, reclaim_stale, run_once).
use pasarguard_control_plane.Base.{
  ℕ, zero, suc, ◌+◌, ◌≤◌, ◌≡◌, refl, true, false, Option, List, [], ◌∷◌, arith, inl, inr, ◌==◌, All,
  Bool-cases, length, take, where_rows, update_where, Result, ok, err, map, ap, subst, Option-cases,
}
use pasarguard_control_plane.Outbox.{
  Settings, Outcome, Stats, is_due, before, insert_ordered, ordered, due_rows, claim_event,
  claim_all, claim, reclaim_stale, count_retry, retry, retry_event, no_handler, after_handler, fail,
  deliver, deliver_all, run_once,
}
use pasarguard_control_plane.Outbox.Rows.{Topic, EventStatus, Event}

abbrev pub IsDue : ℕ → Event → Type 0
IsDue now e = (e.status ≡ EventStatus.pending) × (e.next_attempt_at ≤ now)

-- each row comes no later than the next one in the order of the query
abbrev pub IsOrdered : List Event → Type 0
IsOrdered [] = Unit
IsOrdered (e ∷ events) = All (λ x. before e x ≡ true) events × IsOrdered events

before_trans : (a b c : Event) → before a b ≡ true → before b c ≡ true → before a c ≡ true
unfolding before
before_trans a b c h k = ground arith

before_total : (a b : Event) → before a b ≡ false → before b a ≡ true
unfolding before
before_total a b h = ground arith

All-before :
    (a b : Event) (l : List Event)
    → before a b ≡ true
    → All (λ x. before b x ≡ true) l
    → All (λ x. before a x ≡ true) l
All-before a b [] h k = tt
All-before a b (c ∷ l) h k = (before_trans a b c h k.0, All-before a b l h k.1)

module _ {κ} (P : Event → Type κ) where
  insert_ordered-All : (e : Event) (l : List Event) → P e → All P l → All P (insert_ordered e l)
  unfolding insert_ordered
  insert_ordered-All e [] p h = (p, tt)
  insert_ordered-All e (x ∷ l) p h = ground (arith, insert_ordered-All e l p h.1)

  ordered-All : (l : List Event) → All P l → All P (ordered l)
  unfolding ordered
  ordered-All [] h = tt
  ordered-All (e ∷ l) h = insert_ordered-All e (ordered l) h.0 (ordered-All l h.1)

  take-All : (n : ℕ) (l : List Event) → All P l → All P (take n l)
  take-All zero l h = tt
  take-All (suc n) [] h = tt
  take-All (suc n) (e ∷ l) h = (h.0, take-All n l h.1)

insert_ordered-IsOrdered :
    (e : Event) (l : List Event) → IsOrdered l → IsOrdered (insert_ordered e l)
unfolding insert_ordered
insert_ordered-IsOrdered e [] h = (tt, tt)
insert_ordered-IsOrdered e (x ∷ l) h = elim (Bool-cases (before e x)) [
  | inl first ↦ rw first ((first, All-before e x l first h.0), h)
  | inr later ↦ rw later (
    insert_ordered-All (λ y. before x y ≡ true) e l (before_total e x later) h.0,
    insert_ordered-IsOrdered e l h.1,
  )
]

ordered-IsOrdered : (l : List Event) → IsOrdered (ordered l)
unfolding ordered
ordered-IsOrdered [] = tt
ordered-IsOrdered (e ∷ l) = insert_ordered-IsOrdered e (ordered l) (ordered-IsOrdered l)

take-IsOrdered : (n : ℕ) (l : List Event) → IsOrdered l → IsOrdered (take n l)
take-IsOrdered zero l h = tt
take-IsOrdered (suc n) [] h = tt
take-IsOrdered (suc n) (e ∷ l) h =
    (take-All (λ x. before e x ≡ true) n l h.0, take-IsOrdered n l h.1)

length-take : (n : ℕ) (l : List Event) → length (take n l) ≤ n
length-take zero l = omega arith
length-take (suc n) [] = omega arith
length-take (suc n) (e ∷ l) = omega (arith, length-take n l)

where-IsDue : (now : ℕ) (queue : List Event) → All (IsDue now) (where_rows (is_due now) queue)
unfolding is_due
where-IsDue now [] = tt
where-IsDue now (e ∷ queue) = ground (arith, where-IsDue now queue)

-- The rows that a claim selects are pending and due, at most as many as its limit, and in the order
-- of their due times.
pub due_rows_lem :
    (now limit : ℕ) (queue : List Event)
    → All (IsDue now) (due_rows now limit queue)
      × (length (due_rows now limit queue) ≤ limit)
      × IsOrdered (due_rows now limit queue)
unfolding due_rows
due_rows_lem now limit queue =
    let rows = where_rows (is_due now) queue in
    (
      take-All (IsDue now) limit (ordered rows)
          (ordered-All (IsDue now) rows (where-IsDue now queue)),
      length-take limit (ordered rows),
      take-IsOrdered limit (ordered rows) (ordered-IsOrdered rows),
    )

claim_all-map :
    (worker now : ℕ) (rows queue : List Event)
    → (claim_all worker now rows queue).0 ≡ map (claim_event worker now) rows
unfolding claim_all
claim_all-map worker now [] queue = refl
claim_all-map worker now (e ∷ rows) queue =
    ap (λ l. claim_event worker now e ∷ l)
      (claim_all-map worker now rows
        (update_where (λ x. x.id == e.id) (claim_event worker now) queue))

-- so many more events counted, each as done, retried or dead
abbrev Counted : ℕ → Stats → Result Stats → Type 0
Counted n s (err x) = Unit
Counted n s (ok s') =
    (s'.claimed ≡ s.claimed + n)
    × (s'.done + s'.retried + s'.dead ≡ s.done + s.retried + s.dead + n)
    × (s'.stale ≡ s.stale)

Counted-on_ok :
    {A : Type 0} (n : ℕ) (s s' : Stats) (r : Result A)
    → Counted n s (ok s')
    → Counted n s (elim r [ ok _ ↦ ok s' | err x ↦ err x ])
Counted-on_ok n s s' (ok _) h = h
Counted-on_ok n s s' (err x) h = tt

count_retry_counts :
    (status : EventStatus) (s : Stats)
    → Counted 1 s (ok (count_retry status (record s { claimed = s.claimed + 1 })))
unfolding count_retry
count_retry_counts EventStatus.pending s = ground arith
count_retry_counts _ s = ground arith

-- what the counters of a run add up to, if it returns
abbrev Bounded : ℕ → Result Stats → Type 0
Bounded limit (err x) = Unit
Bounded limit (ok s) = (s.done + s.retried + s.dead ≡ s.claimed) × (s.claimed ≤ limit)

abbrev fresh_stats : ℕ → Stats
fresh_stats n = record { stale = n; claimed = 0; done = 0; retried = 0; dead = 0 }

Counted-Bounded :
    (n limit stale : ℕ) (r : Result Stats)
    → Counted n (fresh_stats stale) r
    → n ≤ limit
    → Bounded limit r
Counted-Bounded n limit stale (err x) h k = tt
Counted-Bounded n limit stale (ok s) h k = omega arith

length-map {ℓ κ} : {A : Type ℓ} {B : Type κ} (f : A → B) (l : List A) → length (map f l) ≡ length l
length-map f [] = refl
length-map f (x ∷ l) = ap suc (length-map f l)

module _ {R : Type 0} (c : Settings)
    (handlers : Topic → Option (Event → List Event → R → Outcome R)) (now : ℕ) where
  fail_counts :
      (e : Event) (text : List ℕ) (s : Stats) (queue : List Event) (rest : R)
      → Counted 1 s (fail c handlers now e text (record s { claimed = s.claimed + 1 }) queue rest).0
  unfolding fail
  fail_counts e text s queue rest =
      let status = (retry_event c now text e).status in
      Counted-on_ok 1 s (count_retry status (record s { claimed = s.claimed + 1 }))
        (retry c now e text queue).0 (count_retry_counts status s)

  handled_counts :
      (e : Event) (s : Stats) (queue : List Event) (rest : R) (o : Outcome R)
      → Counted 1 s
          (after_handler c handlers now e (record s { claimed = s.claimed + 1 }) queue rest o).0
  unfolding after_handler
  handled_counts e s queue rest (Outcome.raised text) = fail_counts e text s queue rest
  handled_counts e s queue rest (Outcome.handled queue' rest') = ground arith

  deliver_counts :
      (e : Event) (s : Stats) (queue : List Event) (rest : R)
      → Counted 1 s (deliver c handlers now e s queue rest).0
  unfolding deliver
  deliver_counts e s queue rest = elim (Option-cases (handlers e.topic)) [
    | inl missing ↦ rw (missing, deliver) (fail_counts e (no_handler e) s queue rest)
    | inr (h, found) ↦ rw (found, deliver) (handled_counts e s queue rest (h e queue rest))
  ]

  Counted-trans :
      (n : ℕ) (s s' : Stats) (r : Result Stats)
      → Counted 1 s (ok s')
      → Counted n s' r
      → Counted (suc n) s r
  Counted-trans n s s' (err x) h k = tt
  Counted-trans n s s' (ok _) h k = omega arith

  deliver_all_step :
      (n : ℕ) (s : Stats) (events : List Event) (z : Result Stats × List Event × R)
      → Counted 1 s z.0
      → ((s' : Stats) (queue : List Event) (rest : R)
          → Counted n s' (deliver_all c handlers now events s' queue rest).0)
      → Counted
          (suc n)
          s
          (elim z.0 as (λ _. Result Stats × List Event × R) [
            | ok s' ↦ deliver_all c handlers now events s' z.1 z.2
            | err x ↦ (err x, z.1, z.2)
          ]).0
  deliver_all_step n s events (err x, queue, rest) h k = tt
  deliver_all_step n s events (ok s', queue, rest) h k =
      Counted-trans n s s' (deliver_all c handlers now events s' queue rest).0 h (k s' queue rest)

  deliver_all_counts :
      (events : List Event) (s : Stats) (queue : List Event) (rest : R)
      → Counted (length events) s (deliver_all c handlers now events s queue rest).0
  unfolding deliver_all
  deliver_all_counts [] s queue rest = ground arith
  deliver_all_counts (e ∷ events) s queue rest =
      deliver_all_step (length events) s events (deliver c handlers now e s queue rest)
        (deliver_counts e s queue rest) (deliver_all_counts events)

  length-claim :
      (worker limit : ℕ) (queue : List Event) → length (claim worker now limit queue).0 ≤ limit
  unfolding claim
  length-claim worker limit queue =
      rw claim_all-map (rw length-map (due_rows_lem now limit queue).1)

  run_once_step :
      (worker limit : ℕ) (rest : R) (z : Result ℕ × List Event)
      → Bounded limit
          (elim z.0 as (λ _. Result Stats × List Event × R) [
            | err x ↦ (err x, z.1, rest)
            | ok n ↦
                let (events, queue) = claim worker now limit z.1 in
                deliver_all c handlers now events (fresh_stats n) queue rest
          ]).0
  run_once_step worker limit rest (err x, queue) = tt
  run_once_step worker limit rest (ok n, queue) =
      let claimed = claim worker now limit queue in
      Counted-Bounded (length claimed.0) limit n
        (deliver_all c handlers now claimed.0 (fresh_stats n) claimed.1 rest).0
        (deliver_all_counts claimed.0 (fresh_stats n) claimed.1 rest)
        (length-claim worker limit queue)

  -- A run that returns has counted every event that it claimed exactly once, as done, retried or
  -- dead, and has claimed at most as many as its limit.
  pub run_once-counts :
      (worker limit : ℕ) (queue queue' : List Event) (rest rest' : R) (s : Stats)
      → run_once c handlers now worker limit queue rest ≡ (ok s, queue', rest')
      → (s.done + s.retried + s.dead ≡ s.claimed) × (s.claimed ≤ limit)
  unfolding run_once
  run_once-counts worker limit queue queue' rest rest' s h =
      subst (λ z. Bounded limit z.0) h
        (run_once_step worker limit rest (reclaim_stale now c.claim_timeout_seconds queue))
