-- ===== src/Ledger/Accounts.antt =====
-- What an account holds, and how the account table reads after a wallet is opened or moved
-- (app.py: account, and the relative updates of transfer).
use pasarguard_control_plane.Base.{
  ◌≡◌, refl, ◌≢◌, Bool, true, false, Option, some, none, List, [], ◌∷◌, arith, if◌then◌else◌,
  is_some, ℤ, pos, ◌+ℤ◌, int_laws, Option-cases, Bool-cases, sym, inl, inr, ok, pure, >>=-ok, ap,
  ◌∙◌,
}
use pasarguard_control_plane.Ledger.{find_account, account, balance, move}
use pasarguard_control_plane.Ledger.Rows.{Owner, owner_eq, owner_eq_iff, Account, Books}

-- The balance column of an owner's wallet; an owner without a wallet holds nothing.
abbrev pub holding : Option Account → ℤ
holding none = pos 0
holding (some a) = a.balance_irr

abbrev pub balance_of : Owner → List Account → ℤ
balance_of o [] = pos 0
balance_of o (a ∷ accounts) = if owner_eq a.owner o then a.balance_irr else balance_of o accounts

abbrev pub has_account : Owner → List Account → Bool
has_account o [] = false
has_account o (a ∷ accounts) = if owner_eq a.owner o then true else has_account o accounts

-- No owner has two wallets.
abbrev pub Distinct : List Account → Type 0
Distinct [] = Unit
Distinct (a ∷ accounts) = (has_account a.owner accounts ≡ false) × Distinct accounts

abbrev pub total : List Account → ℤ
total [] = pos 0
total (a ∷ accounts) = a.balance_irr +ℤ total accounts

pub has_account-find : (o : Owner) (l : List Account) → has_account o l ≡ is_some (find_account o l)
unfolding find_account
has_account-find o [] = refl
has_account-find o (a ∷ l) = ground (arith, has_account-find o l)

pub balance_of-find : (o : Owner) (l : List Account) → balance_of o l ≡ holding (find_account o l)
unfolding find_account
balance_of-find o [] = refl
balance_of-find o (a ∷ l) = ground (arith, balance_of-find o l)

zero_add : (a : ℤ) → pos 0 +ℤ a ≡ a
zero_add a = omega int_laws

+ℤ_comm : (a b : ℤ) → a +ℤ b ≡ b +ℤ a
+ℤ_comm a b = omega int_laws

module _ (p : Owner) (d : ℤ) where
  pub has_account-move :
      (o : Owner) (l : List Account) → has_account o (move p d l) ≡ has_account o l
  unfolding move
  has_account-move o [] = refl
  has_account-move o (a ∷ l) = ground (arith, has_account-move o l)

  pub balance_of-move_self :
      (l : List Account) → has_account p l ≡ true → balance_of p (move p d l) ≡ balance_of p l +ℤ d
  unfolding move
  balance_of-move_self [] h = cc
  balance_of-move_self (a ∷ l) h = ground (arith, balance_of-move_self l)

  pub balance_of-move_ne :
      (o : Owner) (l : List Account) → p ≢ o → balance_of o (move p d l) ≡ balance_of o l
  unfolding move
  balance_of-move_ne o [] h = refl
  balance_of-move_ne o (a ∷ l) h =
      ground (arith, balance_of-move_ne o l h, owner_eq_iff a.owner p, owner_eq_iff a.owner o)

  pub balance_of-move :
      (o : Owner) (l : List Account)
      → has_account p l ≡ true
      → balance_of o (move p d l) ≡ (if owner_eq p o then d else pos 0) +ℤ balance_of o l
  balance_of-move o l h = elim (Bool-cases (owner_eq p o)) [
    | inl same ↦
        rw (same, ← (owner_eq_iff p o).0 same)
          (balance_of-move_self l h ∙ +ℤ_comm (balance_of p l) d)
    | inr other ↦ rw other (
        balance_of-move_ne o l (λ e. cc ((owner_eq_iff p o).1 e)) ∙ sym (zero_add (balance_of o l)))
  ]

  move_absent : (l : List Account) → has_account p l ≡ false → total (move p d l) ≡ total l
  unfolding move
  move_absent [] h = refl
  move_absent (a ∷ l) h = ground (arith, move_absent l)

  pub total-move :
      (l : List Account) → Distinct l → has_account p l ≡ true → total (move p d l) ≡ total l +ℤ d
  unfolding move
  total-move [] h e = cc
  total-move (a ∷ l) h e = grind (int_laws, total-move l h.1, move_absent l, owner_eq_iff a.owner p)

  pub move-Distinct : (l : List Account) → Distinct l → Distinct (move p d l)
  unfolding move
  move-Distinct [] h = tt
  move-Distinct (a ∷ l) h = ground (arith, move-Distinct l h.1, has_account-move a.owner l)

-- Opening a wallet never fails, makes it present, and leaves every balance as it reads.
pub record Opened (o : Owner) (b b' : Books) : Type 0 where
  pub present : has_account o b'.accounts ≡ true
  pub kept : (p : Owner) → has_account p b.accounts ≡ true → has_account p b'.accounts ≡ true
  pub reads : (p : Owner) → balance_of p b'.accounts ≡ balance_of p b.accounts
  pub sums : total b'.accounts ≡ total b.accounts
  pub distinct : Distinct b.accounts → Distinct b'.accounts
  pub entries : b'.entries ≡ b.entries
  pub transactions : b'.transactions ≡ b.transactions

balance_of-absent :
    (o : Owner) (l : List Account) → has_account o l ≡ false → balance_of o l ≡ pos 0
balance_of-absent o [] h = refl
balance_of-absent o (a ∷ l) h = ground (arith, balance_of-absent o l)

balance_of-open :
    (o p : Owner) (l : List Account)
    → has_account o l ≡ false
    → balance_of p (record { owner = o; balance_irr = pos 0 } ∷ l) ≡ balance_of p l
balance_of-open o p l h = ground (arith, balance_of-absent p l, owner_eq_iff o p)

module _ (o : Owner) (b : Books) where
  Opened-old : (a : Account) → find_account o b.accounts ≡ some a → Opened o b b
  Opened-old a e = record {
    present = rw (has_account-find, e);
    kept = λ p h. h;
    reads = λ p. refl;
    sums = refl;
    distinct = λ h. h;
    entries = refl;
    transactions = refl;
  }

  Opened-new :
      find_account o b.accounts ≡ none
      → Opened o b (record b { accounts = record { owner = o; balance_irr = pos 0 } ∷ b.accounts })
  Opened-new e =
      let absent : has_account o b.accounts ≡ false = rw (has_account-find, e) refl in
      record {
        present = ground (arith, owner_eq_iff o o);
        kept = λ p h. ground (arith, h);
        reads = λ p. balance_of-open o p b.accounts absent;
        sums = zero_add (total b.accounts);
        distinct = λ h. (absent, h);
        entries = refl;
        transactions = refl;
      }

  pub account-Opened : Opened o b (account o b).1
  unfolding account
  account-Opened = elim (Option-cases (find_account o b.accounts)) [
    | inr (a, e) ↦ rw (e, account) (Opened-old a e)
    | inl e ↦ rw (e, account) (Opened-new e)
  ]

  -- the row that `account` returns is the owner's, and holds its balance
  pub account_lem :
      (a : Account) × (account o b ≡ (ok a, (account o b).1))
      × (a.balance_irr ≡ balance_of o b.accounts)
  unfolding account
  account_lem = elim (Option-cases (find_account o b.accounts)) [
    | inr (a, e) ↦ (a, rw (e, account), rw (balance_of-find, e))
    | inl e ↦ (record { owner = o; balance_irr = pos 0 }, rw (e, account), rw (balance_of-find, e))
  ]

  pub balance_lem : balance o b ≡ (ok (balance_of o b.accounts), (account o b).1)
  unfolding balance
  balance_lem =
      let (a, found, holds) = account_lem in
      >>=-ok (account o) (λ x. pure x.balance_irr) b found ∙ ap (λ z. (ok z, (account o b).1)) holds
