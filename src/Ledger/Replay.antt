-- ===== src/Ledger/Replay.antt =====
-- Idempotency of `transfer` (app.py): what a key has settled once it never settles again.
use pasarguard_control_plane.Base.{
  ℕ, none, [], ◌∷◌, ap, ◌≡◌, ◌≢◌, Bool, false, Option, some, List, arith, inl, inr, Option-cases,
  Bool-cases, ◌==◌, Result, ok, err, sym, ◌∙◌,
}
use pasarguard_control_plane.Tenancy.{Organization}
use pasarguard_control_plane.Ledger.{find_transaction, post, transfer}
use pasarguard_control_plane.Ledger.Outcome.{
  finish, payer_check, opened, opened-Ready, transfer_lem,
}
use pasarguard_control_plane.Ledger.Rows.{Owner, Key, key_eq, key_eq_iff, Kind, Transaction, Books}

module _ (orgs : List Organization) (source target : Owner) (amount : ℕ) (key : Key) (kind : Kind)
    (ref : Option ℕ) (enforce : Bool) (actor : Option ℕ) (b : Books) where
  known_replays :
      (old : Transaction)
      → amount ≢ 0
      → find_transaction key b.transactions ≡ some old
      → transfer orgs source target amount key kind ref enforce actor b ≡ (ok old, b)
  unfolding transfer
  known_replays old positive known =
      let some_amount : (amount == 0) ≡ false = ground arith in rw (some_amount, known)

  finish_records :
      (r : Result (Unit {0})) (c : Books) {tx : Transaction} {b' : Books}
      → finish orgs source target amount key kind ref enforce actor r c ≡ (ok tx, b')
      → find_transaction key b'.transactions ≡ some tx
  unfolding post find_transaction
  finish_records (ok _) c e = ground (arith, key_eq_iff key key)
  finish_records (err x) c e = cc

  -- a call that returns a transaction leaves it on record under its key
  pub transfer_records :
      {tx : Transaction} {b' : Books}
      → transfer orgs source target amount key kind ref enforce actor b ≡ (ok tx, b')
      → find_transaction key b'.transactions ≡ some tx
  unfolding transfer
  transfer_records e = elim (Bool-cases (amount == 0)) [
    | inl nothing ↦ cc (rw nothing at e)
    | inr some_amount ↦ elim (Option-cases (find_transaction key b.transactions)) [
      | inr (old, known) ↦ ground arith
      | inl fresh ↦
          finish_records (payer_check orgs source target amount key kind ref enforce actor b)
            (opened source target b)
            (sym (
                transfer_lem orgs source target amount key kind ref enforce actor b (ground arith)
                  fresh)
              ∙ e)
    ]
  ]

module _ (orgs : List Organization) (source target : Owner) (amount : ℕ) (key : Key) (kind : Kind)
    (ref : Option ℕ) (enforce : Bool) (actor : Option ℕ) where
  post-keeps_known :
      (other : Key) {old : Transaction} (c : Books)
      → find_transaction key c.transactions ≡ none
      → find_transaction other c.transactions ≡ some old
      → find_transaction other (post source target amount key kind ref actor c).1.transactions
        ≡ some old
  unfolding post find_transaction
  post-keeps_known other c fresh known = elim (Bool-cases (key_eq key other)) [
    | inl same ↦ cc (ap (λ k. find_transaction k c.transactions) ((key_eq_iff key other).0 same))
    | inr apart ↦ rw apart known
  ]

  finish-keeps_known :
      (other : Key) {old : Transaction} (r : Result (Unit {0})) (c : Books)
      → find_transaction key c.transactions ≡ none
      → find_transaction other c.transactions ≡ some old
      → find_transaction other
          (finish orgs source target amount key kind ref enforce actor r c).1.transactions
        ≡ some old
  finish-keeps_known other (ok _) c fresh known = post-keeps_known other c fresh known
  finish-keeps_known other (err x) c fresh known = known

  -- a transfer forgets no key
  transfer-keeps_known :
      (other : Key) {old : Transaction} (b : Books)
      → find_transaction other b.transactions ≡ some old
      → find_transaction other
          (transfer orgs source target amount key kind ref enforce actor b).1.transactions
        ≡ some old
  unfolding transfer
  transfer-keeps_known other b known = elim (Bool-cases (amount == 0)) [
    | inl nothing ↦ rw nothing known
    | inr some_amount ↦ elim (Option-cases (find_transaction key b.transactions)) [
      | inr (old, here) ↦
          rw
            (known_replays orgs source target amount key kind ref enforce actor b old (ground arith)
              here)
            known
      | inl fresh ↦
          let ready = opened-Ready source target b in
          rw
            (transfer_lem orgs source target amount key kind ref enforce actor b (ground arith)
              fresh)
            (finish-keeps_known other
              (payer_check orgs source target amount key kind ref enforce actor b)
              (opened source target b) (ap (find_transaction key) ready.transactions ∙ fresh)
              (ap (find_transaction other) ready.transactions ∙ known))
    ]
  ]

-- the arguments of a call of `transfer`
pub record Call : Type 0 where
  pub orgs : List Organization
  pub source : Owner
  pub target : Owner
  pub amount : ℕ
  pub key : Key
  pub kind : Kind
  pub ref : Option ℕ
  pub enforce : Bool
  pub actor : Option ℕ

abbrev pub run_call : Call → Books → Result Transaction × Books
run_call c = transfer c.orgs c.source c.target c.amount c.key c.kind c.ref c.enforce c.actor

-- the books after some calls, whatever each of them came to
abbrev pub after_calls : List Call → Books → Books
after_calls [] b = b
after_calls (c ∷ calls) b = after_calls calls (run_call c b).1

after_calls-keeps_known :
    (calls : List Call) (key : Key) {old : Transaction} (b : Books)
    → find_transaction key b.transactions ≡ some old
    → find_transaction key (after_calls calls b).transactions ≡ some old
after_calls-keeps_known [] key b known = known
after_calls-keeps_known (c ∷ calls) key b known =
    after_calls-keeps_known calls key (run_call c b).1 (
      transfer-keeps_known c.orgs c.source c.target c.amount c.key c.kind c.ref c.enforce c.actor
        key b known)

-- Once a transfer has returned a transaction, and whatever calls of `transfer` came after it and
-- however they ended, every positive transfer with its key, whatever its parties, amount, kind and
-- checks, returns the same transaction and changes nothing.
pub transfer-replay :
    (first again : Call) (calls : List Call) (b : Books) {tx : Transaction} {b' : Books}
    → run_call first b ≡ (ok tx, b')
    → again.key ≡ first.key
    → again.amount ≢ 0
    → run_call again (after_calls calls b') ≡ (ok tx, after_calls calls b')
transfer-replay first again calls b {tx} {b'} returned same positive =
    known_replays again.orgs again.source again.target again.amount again.key again.kind again.ref
      again.enforce again.actor (after_calls calls b') tx positive
      (rw same (
        after_calls-keeps_known calls first.key b' (
          transfer_records first.orgs first.source first.target first.amount first.key first.kind
            first.ref first.enforce first.actor b returned)))
