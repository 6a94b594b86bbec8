-- ===== src/Ledger/Sound.antt =====
-- The double entry behind `transfer` (app.py): the cached balances, the entries and the sum of all
-- wallets stay in step, as the view ledger_imbalance of migrations/004_ledger_hardening.sql asks.
use pasarguard_control_plane.Base.{
  ℕ, ◌≡◌, ◌∙◌, sym, ap, Bool, true, false, Option, List, [], ◌∷◌, arith, inl, inr, if◌then◌else◌,
  Option-cases, Bool-cases, ◌==◌, Result, ok, err, ℤ, pos, ◌+ℤ◌, ◌-ℤ◌, int_laws,
}
use pasarguard_control_plane.Tenancy.{Organization}
use pasarguard_control_plane.Ledger.{find_transaction, post, move, transfer}
use pasarguard_control_plane.Ledger.Accounts.{
  balance_of, has_account, Distinct, total, balance_of-move, total-move, move-Distinct,
  has_account-move,
}
use pasarguard_control_plane.Ledger.Outcome.{
  Ready, opened, opened-Ready, finish, payer_check, transfer_lem,
}
use pasarguard_control_plane.Ledger.Rows.{Owner, owner_eq, Side, Key, Kind, Entry, Books}

abbrev pub signed : Side → ℕ → ℤ
signed Side.credit n = pos n
signed Side.debit n = pos 0 -ℤ pos n

-- What the entries of an owner add up to, credits less debits.
abbrev pub posted : Owner → List Entry → ℤ
posted o [] = pos 0
posted o (e ∷ entries) =
    if owner_eq e.account o
    then signed e.side e.amount_irr +ℤ posted o entries
    else posted o entries

post_sum :
    (paid got : Bool) (n : ℕ) (a : ℤ)
    → (if got then pos n else pos 0) +ℤ ((if paid then pos 0 -ℤ pos n else pos 0) +ℤ a) ≡ (
        if paid
        then (pos 0 -ℤ pos n) +ℤ (if got then pos n +ℤ a else a)
        else if got
        then pos n +ℤ a
        else a)
post_sum true true n a = omega int_laws
post_sum true false n a = omega int_laws
post_sum false true n a = omega int_laws
post_sum false false n a = omega int_laws

pub record IsSound (b : Books) : Type 0 where
  -- one wallet for each owner
  pub distinct : Distinct b.accounts
  -- no drift: each cached balance is the sum of its entries
  pub balanced : (o : Owner) → balance_of o b.accounts ≡ posted o b.entries
  -- what one wallet gains another loses
  pub zero_sum : total b.accounts ≡ pos 0

module _ (source target : Owner) (amount : ℕ) (key : Key) (kind : Kind) (ref actor : Option ℕ)
    (b : Books) where
  abbrev pub after_post : Books
  after_post = (post source target amount key kind ref actor b).1

  module _ (source_open : has_account source b.accounts ≡ true)
      (target_open : has_account target b.accounts ≡ true) where
    -- what each wallet reads after the two relative updates
    pub balance_of-post :
        (o : Owner)
        → balance_of o after_post.accounts
          ≡ (if owner_eq target o then pos amount else pos 0)
            +ℤ ((if owner_eq source o then pos 0 -ℤ pos amount else pos 0)
                +ℤ balance_of o b.accounts)
    unfolding post
    balance_of-post o =
        balance_of-move target (pos amount) o (move source (pos 0 -ℤ pos amount) b.accounts)
          (has_account-move source (pos 0 -ℤ pos amount) target b.accounts ∙ target_open)
        ∙ ap (λ z. (if owner_eq target o then pos amount else pos 0) +ℤ z)
            (balance_of-move source (pos 0 -ℤ pos amount) o b.accounts source_open)

    regroup :
        (o : Owner)
        → balance_of o b.accounts ≡ posted o b.entries
        → (if owner_eq target o then pos amount else pos 0)
            +ℤ ((if owner_eq source o then pos 0 -ℤ pos amount else pos 0)
                +ℤ balance_of o b.accounts)
          ≡ posted o after_post.entries
    unfolding post
    regroup o h =
        rw h (post_sum (owner_eq source o) (owner_eq target o) amount (posted o b.entries))

    post-IsSound : IsSound b → IsSound after_post
    unfolding post
    post-IsSound s =
        let paid = move source (pos 0 -ℤ pos amount) b.accounts in
        let paid_distinct = move-Distinct source (pos 0 -ℤ pos amount) b.accounts s.distinct in
        record {
          distinct = move-Distinct target (pos amount) paid paid_distinct;
          balanced = λ o. balance_of-post o ∙ regroup o (s.balanced o);
          zero_sum =
              total-move target (pos amount) paid paid_distinct
                (has_account-move source (pos 0 -ℤ pos amount) target b.accounts ∙ target_open)
              ∙ ap (λ z. z +ℤ pos amount)
                  (total-move source (pos 0 -ℤ pos amount) b.accounts s.distinct source_open)
              ∙ rw s.zero_sum (omega int_laws);
        }

Ready-IsSound :
    {source target : Owner} {b c : Books} → Ready source target b c → IsSound b → IsSound c
Ready-IsSound r s = record {
  distinct = r.distinct s.distinct;
  balanced = λ o. r.reads o ∙ s.balanced o ∙ sym (ap (posted o) r.entries);
  zero_sum = r.sums ∙ s.zero_sum;
}

module _ (orgs : List Organization) (source target : Owner) (amount : ℕ) (key : Key) (kind : Kind)
    (ref : Option ℕ) (enforce : Bool) (actor : Option ℕ) (b : Books) where
  finish-IsSound :
      (r : Result (Unit {0})) (c : Books)
      → Ready source target b c
      → IsSound b
      → IsSound (finish orgs source target amount key kind ref enforce actor r c).1
  finish-IsSound (ok _) c ready s =
      post-IsSound source target amount key kind ref actor c ready.source_open ready.target_open
        (Ready-IsSound ready s)
  finish-IsSound (err e) c ready s = Ready-IsSound ready s

  -- Sound books stay sound through every call of `transfer`, whether it posts, replays an old key
  -- or raises: wallets stay unique and free of drift, and sum up to nothing.
  pub transfer-IsSound :
      IsSound b → IsSound (transfer orgs source target amount key kind ref enforce actor b).1
  unfolding transfer
  transfer-IsSound s = elim (Bool-cases (amount == 0)) [
    | inl nothing ↦ rw nothing s
    | inr some_amount ↦ elim (Option-cases (find_transaction key b.transactions)) [
      | inr (old, known) ↦ rw (some_amount, known) s
      | inl fresh ↦
          rw
            (transfer_lem orgs source target amount key kind ref enforce actor b (ground arith)
              fresh)
            (finish-IsSound (payer_check orgs source target amount key kind ref enforce actor b)
              (opened source target b) (opened-Ready source target b) s)
    ]
  ]
