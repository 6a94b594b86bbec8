-- ===== src/Ledger/Credit.antt =====
-- What `transfer` (app.py) moves, what it refuses, and that no checked transfer takes a wallet
-- below the credit of its organization.
use pasarguard_control_plane.Base.{
  ℕ, subst, ◌≡◌, refl, ◌⊎◌, ◌∙◌, ap, Bool, true, false, Option, some, none, List, arith, inl, inr,
  if◌then◌else◌, Option-cases, Bool-cases, ◌==◌, Result, ok, err, find, ℤ, pos, ◌+ℤ◌, ◌-ℤ◌, ◌≤ℤ◌,
  int_laws, amount_not_positive,
}
use pasarguard_control_plane.Tenancy.{Organization}
use pasarguard_control_plane.Ledger.{find_transaction, post, may_pay, transfer}
use pasarguard_control_plane.Ledger.Accounts.{balance_of}
use pasarguard_control_plane.Ledger.Outcome.{
  Ready, opened, opened-Ready, finish, payer_check, transfer_lem,
}
use pasarguard_control_plane.Ledger.Sound.{balance_of-post}
use pasarguard_control_plane.Ledger.Rows.{
  Owner, owner_eq, owner_eq_iff, Key, Kind, Transaction, Books,
}

-- No organization owes more than its credit limit.
abbrev pub IsSolvent : List Organization → Books → Type 0
IsSolvent orgs b =
    (o : ℕ) (x : Organization)
    → find (λ y. y.id == o) orgs ≡ some x
    → pos 0 ≤ℤ balance_of (Owner.org o) b.accounts +ℤ pos x.credit_limit_irr

-- The wallets after `n` has gone from one owner to another.
abbrev pub Moved : Owner → Owner → ℕ → Books → Books → Type 0
Moved source target n b b' =
    (o : Owner)
    → balance_of o b'.accounts
      ≡ (if owner_eq target o then pos n else pos 0)
        +ℤ ((if owner_eq source o then pos 0 -ℤ pos n else pos 0) +ℤ balance_of o b.accounts)

-- every wallet reads as before
abbrev pub Unmoved : Books → Books → Type 0
Unmoved b b' =
    ((o : Owner) → balance_of o b'.accounts ≡ balance_of o b.accounts)
    × (b'.entries ≡ b.entries)
    × (b'.transactions ≡ b.transactions)

module _ (orgs : List Organization) (source target : Owner) (amount : ℕ) (key : Key) (kind : Kind)
    (ref : Option ℕ) (enforce : Bool) (actor : Option ℕ) (b : Books) where
  -- What a call did, by how it ended. It posted, with a new key and a payer that passed; or it
  -- replayed an old key and changed nothing; or it raised, for one of two reasons, and moved nothing.
  abbrev pub Ended : Result Transaction × Books → Type 0
  Ended (ok tx, b') =
      ((find_transaction key b.transactions ≡ none)
        × (payer_check orgs source target amount key kind ref enforce actor b ≡ ok tt)
        × Moved source target amount b b')
      ⊎ ((find_transaction key b.transactions ≡ some tx) × (b' ≡ b))
  Ended (err e, b') =
      Unmoved b b'
      × (((amount ≡ 0) × (e ≡ amount_not_positive))
          ⊎ ((find_transaction key b.transactions ≡ none)
              × (payer_check orgs source target amount key kind ref enforce actor b ≡ err e)))

  finish-Ended :
      (r : Result (Unit {0})) (c : Books)
      → find_transaction key b.transactions ≡ none
      → payer_check orgs source target amount key kind ref enforce actor b ≡ r
      → Ready source target b c
      → Ended (finish orgs source target amount key kind ref enforce actor r c)
  unfolding post
  finish-Ended (ok tt) c fresh e ready = inl (
    fresh,
    e,
    λ o.
        balance_of-post source target amount key kind ref actor c ready.source_open
          ready.target_open o
        ∙ ap
            (λ z.
              (if owner_eq target o then pos amount else pos 0)
              +ℤ ((if owner_eq source o then pos 0 -ℤ pos amount else pos 0) +ℤ z))
            (ready.reads o),
  )
  finish-Ended (err x) c fresh e ready =
      ((ready.reads, ready.entries, ready.transactions), inr (fresh, e))

  -- Every call of `transfer` ends in one of the ways that `Ended` lists.
  pub transfer-Ended : Ended (transfer orgs source target amount key kind ref enforce actor b)
  unfolding transfer
  transfer-Ended = elim (Bool-cases (amount == 0)) [
    | inl nothing ↦ rw nothing ((λ o. refl, refl, refl), inl (ground arith, refl))
    | inr some_amount ↦ elim (Option-cases (find_transaction key b.transactions)) [
      | inr (old, known) ↦ rw (some_amount, known) (inr (known, refl))
      | inl fresh ↦
          rw
            (transfer_lem orgs source target amount key kind ref enforce actor b (ground arith)
              fresh)
            (finish-Ended (payer_check orgs source target amount key kind ref enforce actor b)
              (opened source target b) fresh refl (opened-Ready source target b))
    ]
  ]

  pub returned-Ended :
      {r : Result Transaction × Books}
      → transfer orgs source target amount key kind ref enforce actor b ≡ r
      → Ended r
  returned-Ended e = subst Ended e transfer-Ended

  -- a payer that passed its check can afford the amount
  may_pay_lem :
      (o : ℕ) (x : Organization) (sb : ℤ)
      → may_pay orgs (Owner.org o) sb amount ≡ ok tt
      → find (λ y. y.id == o) orgs ≡ some x
      → pos amount ≤ℤ sb +ℤ pos x.credit_limit_irr
  unfolding may_pay
  may_pay_lem o x sb e found = ground arith

  payer_covers :
      (o : ℕ) (x : Organization)
      → (enforce ≡ true) ⊎ (source ≡ Owner.system)
      → payer_check orgs source target amount key kind ref enforce actor b ≡ ok tt
      → owner_eq source (Owner.org o) ≡ true
      → find (λ y. y.id == o) orgs ≡ some x
      → pos amount ≤ℤ balance_of (Owner.org o) b.accounts +ℤ pos x.credit_limit_irr
  payer_covers o x (inl checked) e same found =
      let is_o : source ≡ Owner.org o = (owner_eq_iff source (Owner.org o)).0 same in
      may_pay_lem o x (balance_of (Owner.org o) b.accounts) (rw (checked, is_o) at e) found
  payer_covers o x (inr counterpart) e same found = cc (rw counterpart at same)

  stays_solvent :
      (got paid : Bool) (balance credit : ℤ)
      → pos 0 ≤ℤ balance +ℤ credit
      → (paid ≡ true → pos amount ≤ℤ balance +ℤ credit)
      → pos 0
        ≤ℤ (if got then pos amount else pos 0)
          +ℤ ((if paid then pos 0 -ℤ pos amount else pos 0) +ℤ balance)
          +ℤ credit
  stays_solvent true true balance credit h c = omega (int_laws, c refl)
  stays_solvent false true balance credit h c = omega (int_laws, c refl)
  stays_solvent true false balance credit h c = omega int_laws
  stays_solvent false false balance credit h c = omega int_laws

  Ended-IsSolvent :
      (r : Result Transaction × Books)
      → Ended r
      → (enforce ≡ true) ⊎ (source ≡ Owner.system)
      → IsSolvent orgs b
      → IsSolvent orgs r.1
  Ended-IsSolvent (ok tx, b') (inl (fresh, passed, moved)) guarded h o x found =
      rw (moved (Owner.org o)) (
        stays_solvent (owner_eq target (Owner.org o)) (owner_eq source (Owner.org o))
          (balance_of (Owner.org o) b.accounts) (pos x.credit_limit_irr) (h o x found)
          (λ same. payer_covers o x guarded passed same found))
  Ended-IsSolvent (ok tx, b') (inr (known, same)) guarded h o x found = rw same (h o x found)
  Ended-IsSolvent (err e, b') (still, _) guarded h o x found =
      rw (still.0 (Owner.org o)) (h o x found)

  -- A transfer that is checked, or that the counterpart SYSTEM pays, keeps every organization
  -- within its credit limit.
  pub transfer-IsSolvent :
      (enforce ≡ true) ⊎ (source ≡ Owner.system)
      → IsSolvent orgs b
      → IsSolvent orgs (transfer orgs source target amount key kind ref enforce actor b).1
  transfer-IsSolvent guarded h =
      Ended-IsSolvent (transfer orgs source target amount key kind ref enforce actor b)
        transfer-Ended guarded h
