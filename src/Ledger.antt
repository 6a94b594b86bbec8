-- ===== src/Ledger.antt =====
-- The ledger kernel of src/control_plane/app.py: account, balance, transfer.
pub mod Rows
pub mod Accounts
pub mod Outcome
pub mod Sound
pub mod Replay
pub mod Credit
use pasarguard_control_plane.Base.{
  ℕ, ◌+◌, ◌≡◌, Bool, true, false, not, ◌&&◌, Option, some, none, List, [], ◌∷◌, ◌==◌, if◌then◌else◌,
  Error, org_not_found, suspended, insufficient_credit, amount_not_positive, Result, ok, err,
  Action, ◌>>=◌, ◌>>◌, gets, modify, raise_if, pure, lift, find, get_or, ℤ, pos, ◌+ℤ◌, ◌-ℤ◌, ltb_ℤ,
  update_where,
}
use pasarguard_control_plane.Tenancy.{OrgStatus, Organization}
use Rows.{Owner, owner_eq, Key, key_eq, Kind, Side, Account, Entry, Transaction, Books}

pub find_account : Owner → List Account → Option Account
find_account o = find (λ a. owner_eq a.owner o)

-- The wallet of an owner, opened with nothing on it when there is none.
unfoldable pub account : Owner → Action Books Account
unfolding find_account
account o b = elim (find_account o b.accounts) [
  | some a ↦ (ok a, b)
  | none ↦
      let a : Account = record { owner = o; balance_irr = pos 0 } in
      (ok a, record b { accounts = a ∷ b.accounts })
]

unfoldable pub balance : Owner → Action Books ℤ
unfolding account
balance o = do a ← account o; pure a.balance_irr

unfoldable pub find_transaction : Key → List Transaction → Option Transaction
find_transaction key = find (λ t. key_eq t.idempotency_key key)

-- UPDATE accounts SET balance_irr = balance_irr + d
pub move : Owner → ℤ → List Account → List Account
move o d =
    update_where (λ a. owner_eq a.owner o) (λ a. record a { balance_irr = a.balance_irr +ℤ d })

is_active : OrgStatus → Bool
is_active OrgStatus.active = true
is_active _ = false

-- What an organization must satisfy to pay: it exists, is active, and stays within its credit.
pub may_pay : List Organization → Owner → ℤ → ℕ → Result (Unit {0})
unfolding is_active
may_pay orgs Owner.system sb amount = ok tt
may_pay orgs (Owner.org o) sb amount = elim (find (λ x. x.id == o) orgs) [
  | none ↦ err org_not_found
  | some x ↦
      if not (is_active x.status)
      then err suspended
      else if ltb_ℤ (sb +ℤ pos x.credit_limit_irr) (pos amount)
      then err insufficient_credit
      else ok tt
]

-- the two relative updates, and the transaction with its two entries
pub post : Owner → Owner → ℕ → Key → Kind → Option ℕ → Option ℕ → Action Books Transaction
unfolding move
post source target amount key kind ref actor b =
    let tx : Transaction = record {
      id = b.next_id;
      idempotency_key = key;
      kind = kind;
      reference = ref;
      actor_id = actor;
    } in
    let out : Entry = record {
      transaction_id = b.next_id;
      account = source;
      side = Side.debit;
      amount_irr = amount;
    } in
    let into : Entry = record {
      transaction_id = b.next_id;
      account = target;
      side = Side.credit;
      amount_irr = amount;
    } in
    (
      ok tx,
      record {
        next_id = b.next_id + 1;
        accounts = move target (pos amount) (move source (pos 0 -ℤ pos amount) b.accounts);
        transactions = tx ∷ b.transactions;
        entries = out ∷ into ∷ b.entries;
      },
    )

module _ (orgs : List Organization) (source target : Owner) (amount : ℕ) (key : Key) (kind : Kind)
    (ref : Option ℕ) (enforce : Bool) (actor : Option ℕ) where
  -- the payer's check, and the posting behind it
  pub check_and_post : ℤ → Action Books Transaction
  unfolding may_pay post
  check_and_post sb = do
    lift (if enforce then may_pay orgs source sb amount else ok tt)
    post source target amount key kind ref actor

  -- what `transfer` does once both account rows are locked, the second look for the key included
  pub transfer_locked : Action Books Transaction
  unfolding find_transaction check_and_post balance
  transfer_locked b = elim (find_transaction key b.transactions) [
    | some old ↦ (ok old, b)
    | none ↦ (balance source >>= check_and_post) b
  ]

  unfoldable pub transfer : Action Books Transaction
  unfolding transfer_locked find_transaction account
  transfer b =
      if amount == 0
      then (err amount_not_positive, b)
      else elim (find_transaction key b.transactions) [
        | some old ↦ (ok old, b)
        | none ↦ (do account source; account target; transfer_locked) b
      ]
