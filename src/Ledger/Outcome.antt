-- ===== src/Ledger/Outcome.antt =====
-- Every way that `transfer` (app.py) can end, in one equation: the proofs about it start here.
use pasarguard_control_plane.Base.{
  ℕ, ◌≡◌, refl, ◌∙◌, ◌≢◌, Bool, true, false, Option, none, List, arith, ap, follow, ◌>>◌, >>=-ok,
  if◌then◌else◌, ◌==◌, Result, ok, err,
}
use pasarguard_control_plane.Tenancy.{Organization}
use pasarguard_control_plane.Ledger.{
  account, balance, find_transaction, may_pay, post, check_and_post, transfer_locked, transfer,
}
use pasarguard_control_plane.Ledger.Accounts.{
  balance_of, has_account, Distinct, total, account-Opened, account_lem, balance_lem,
}
use pasarguard_control_plane.Ledger.Rows.{Owner, Key, Kind, Transaction, Books}

-- Both wallets are open, and nothing else has changed.
pub record Ready (source target : Owner) (b c : Books) : Type 0 where
  pub source_open : has_account source c.accounts ≡ true
  pub target_open : has_account target c.accounts ≡ true
  pub reads : (p : Owner) → balance_of p c.accounts ≡ balance_of p b.accounts
  pub sums : total c.accounts ≡ total b.accounts
  pub distinct : Distinct b.accounts → Distinct c.accounts
  pub entries : c.entries ≡ b.entries
  pub transactions : c.transactions ≡ b.transactions

module _ (source target : Owner) (b : Books) where
  -- the wallets of both sides opened, and the source's looked up once more
  abbrev pub opened : Books
  opened = (account source (account target (account source b).1).1).1

  pub opened-Ready : Ready source target b opened
  opened-Ready =
      let b1 = (account source b).1 in
      let b2 = (account target b1).1 in
      let o1 = account-Opened source b in
      let o2 = account-Opened target b1 in
      let o3 = account-Opened source b2 in
      record {
        source_open = o3.present;
        target_open = o3.kept target o2.present;
        reads = λ p. o3.reads p ∙ o2.reads p ∙ o1.reads p;
        sums = o3.sums ∙ o2.sums ∙ o1.sums;
        distinct = λ h. o3.distinct (o2.distinct (o1.distinct h));
        entries = o3.entries ∙ o2.entries ∙ o1.entries;
        transactions = o3.transactions ∙ o2.transactions ∙ o1.transactions;
      }

module _ (orgs : List Organization) (source target : Owner) (amount : ℕ) (key : Key) (kind : Kind)
    (ref : Option ℕ) (enforce : Bool) (actor : Option ℕ) where
  -- the tail of `transfer` behind its check of the payer
  abbrev pub finish : Result (Unit {0}) → Books → Result Transaction × Books
  finish (ok _) c = post source target amount key kind ref actor c
  finish (err e) c = (err e, c)

  abbrev pub payer_check : Books → Result (Unit {0})
  payer_check b =
      if enforce then may_pay orgs source (balance_of source b.accounts) amount else ok tt

  finish_lem :
      (r : Result (Unit {0})) (c : Books)
      → follow (λ _. post source target amount key kind ref actor) (r, c) ≡ finish r c
  finish_lem (ok _) c = refl
  finish_lem (err e) c = refl

  transfer_locked_lem :
      (b : Books)
      → find_transaction key b.transactions ≡ none
      → transfer_locked orgs source target amount key kind ref enforce actor b
        ≡ finish (payer_check b) (account source b).1
  unfolding transfer_locked check_and_post
  transfer_locked_lem b e =
      rw (e, transfer_locked)
        (>>=-ok (balance source)
            (check_and_post orgs source target amount key kind ref enforce actor) b
            (balance_lem source b)
          ∙ finish_lem (payer_check b) (account source b).1)

  -- A positive transfer with a new key opens both wallets, checks the payer against the balance
  -- that it had, and then either posts or stops there.
  pub transfer_lem :
      (b : Books)
      → amount ≢ 0
      → find_transaction key b.transactions ≡ none
      → transfer orgs source target amount key kind ref enforce actor b
        ≡ finish (payer_check b) (opened source target b)
  unfolding transfer
  transfer_lem b positive fresh =
      let b1 = (account source b).1 in
      let b2 = (account target b1).1 in
      let o1 = account-Opened source b in
      let o2 = account-Opened target b1 in
      let (s, found_s, _) = account_lem source b in
      let (t, found_t, _) = account_lem target b1 in
      let zero_no : (amount == 0) ≡ false = ground arith in
      let same : find_transaction key b2.transactions ≡ none =
        ap (find_transaction key) (o2.transactions ∙ o1.transactions) ∙ fresh in
      let locked = transfer_locked orgs source target amount key kind ref enforce actor in
      rw (zero_no, fresh)
        (>>=-ok (account source) (λ _. account target >> locked) b found_s
          ∙ >>=-ok (account target) (λ _. locked) b1 found_t
          ∙ transfer_locked_lem b2 same
          ∙ ap
              (λ z.
                finish (if enforce then may_pay orgs source z amount else ok tt)
                  (opened source target b))
              (o2.reads source ∙ o1.reads source))
