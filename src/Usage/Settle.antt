-- ===== src/Usage/Settle.antt =====
-- What a settlement does to the ledger (app.py: the loop of observe, and all its branches).
use pasarguard_control_plane.Base.{
  ℕ, ◌+◌, ◌≡◌, refl, true, Option, some, none, List, [], ◌∷◌, inl, inr, ltb, find, Result, ok, err,
  Action, pure, Keeps, >>-Keeps, follow_keeps, if_Keeps, ◌==◌, Option-cases, Bool-cases, leb,
}
use pasarguard_control_plane.Domain.{Settlement}
use pasarguard_control_plane.Tenancy.{Organization}
use pasarguard_control_plane.Ledger.{transfer}
use pasarguard_control_plane.Ledger.Sound.{IsSound, transfer-IsSound}
use pasarguard_control_plane.Ledger.Credit.{IsSolvent, transfer-IsSolvent}
use pasarguard_control_plane.Ledger.Rows.{Owner, Key, Kind, Books, Transaction}
use pasarguard_control_plane.Store.{Db, on_books, on_outbox}
use pasarguard_control_plane.Store.Rows.{Binding, Checkpoint}
use pasarguard_control_plane.Usage.{
  UsageIn, after_charge, charge, as_hold, first_reading, regress, regressed, take_reset,
  reset_or_not, settled_tail, settle, priced, accept, observe, find_checkpoint,
}

module _ {ℓ} (P : Books → Type ℓ) (orgs : List Organization)
    (transfer_keeps : (source target : Owner) (amount : ℕ) (key : Key) (b : Books) (ref : Option ℕ)
      → P b
      → P (transfer orgs source target amount key Kind.usage ref true none b).1) where
  charge_step :
      (b : Binding) (from to pending next : ℕ) (rows : List Settlement)
      (z : Result Transaction × Books)
      → ((q : ℕ) → Keeps P (charge orgs b from to q rows))
      → P z.1
      → P (after_charge (charge orgs b from to next rows) (as_hold orgs b from to pending) z).1
  charge_step b from to pending next rows (ok _, books) k h = k next books h
  charge_step b from to pending next rows (err e, books) k h = h

  charge-Keeps :
      (b : Binding) (from to pending : ℕ) (rows : List Settlement)
      → Keeps P (charge orgs b from to pending rows)
  unfolding charge
  charge-Keeps b from to pending [] books h = h
  charge-Keeps b from to pending (x ∷ rows) books h =
      charge_step b from to pending (pending + x.amount_irr) rows
        (transfer orgs (Owner.org x.child_id) (Owner.org x.parent_id) x.amount_irr
          (Key.usage b.id from to x.child_id) Kind.usage (some b.id) true none books)
        (λ q. charge-Keeps b from to q rows)
        (transfer_keeps (Owner.org x.child_id) (Owner.org x.parent_id) x.amount_irr
          (Key.usage b.id from to x.child_id) books (some b.id) h)

-- Sound books, and no organization beyond its credit.
pub record IsGood (orgs : List Organization) (d : Db) : Type 0 where
  pub sound : IsSound d.books
  pub solvent : IsSolvent orgs d.books
  pub same_orgs : d.tenants.organizations ≡ orgs

abbrev Good : List Organization → Books → Type 0
Good orgs b = IsSound b × IsSolvent orgs b

module _ (orgs : List Organization) where
  charge-Good :
      (b : Binding) (from to pending : ℕ) (rows : List Settlement)
      → Keeps (Good orgs) (charge orgs b from to pending rows)
  charge-Good = charge-Keeps (Good orgs) orgs (λ source target amount key books ref good. (
    transfer-IsSound orgs source target amount key Kind.usage ref true none books good.0,
    transfer-IsSolvent orgs source target amount key Kind.usage ref true none books (inl refl)
        good.1,
  ))

  on_books-Good :
      {A : Type 0} (m : Action Books A) → Keeps (Good orgs) m → Keeps (IsGood orgs) (on_books m)
  unfolding on_books
  on_books-Good m h d good =
      let kept = h d.books (good.sound, good.solvent) in
      record { sound = kept.0; solvent = kept.1; same_orgs = good.same_orgs }

  -- a session that leaves the ledger and the organizations alone
  same_books :
      (d : Db) {d' : Db}
      → IsGood orgs d
      → d'.books ≡ d.books
      → d'.tenants ≡ d.tenants
      → IsGood orgs d'
  same_books d good e f = record {
    sound = rw e good.sound;
    solvent = rw e good.solvent;
    same_orgs = rw f good.same_orgs;
  }

  module _ (reset_confirm_readings now : ℕ) (x : UsageIn) where
    first_reading-IsGood : Keeps (IsGood orgs) (first_reading reset_confirm_readings now x)
    unfolding first_reading
    first_reading-IsGood d good = same_books d good refl refl

    regress-IsGood :
        (b : Binding) (cp : Checkpoint)
        → Keeps (IsGood orgs) (regress reset_confirm_readings now x b cp)
    unfolding regress take_reset reset_or_not regressed on_outbox
    regress-IsGood b cp d good =
        >>-Keeps (IsGood orgs) (reset_or_not reset_confirm_readings now x b cp) (pure [])
          (if_Keeps (IsGood orgs) (leb reset_confirm_readings (cp.anomaly_count + 1))
            (take_reset reset_confirm_readings now x b) (pure tt) (λ s g. same_books s g refl refl)
            (λ s g. g))
          (λ s g. g) (regressed reset_confirm_readings now x cp d) (same_books d good refl refl)

    settle-IsGood :
        (b : Binding) (cp : Checkpoint) (rows : List Settlement)
        → Keeps (IsGood orgs) (settle reset_confirm_readings now x b cp rows)
    unfolding settle settled_tail
    settle-IsGood b cp rows d good =
        >>-Keeps (IsGood orgs)
          (on_books (charge d.tenants.organizations b cp.lifetime_bytes x.lifetime_bytes 0 rows))
          (settled_tail reset_confirm_readings now x cp rows)
          (rw good.same_orgs (
            on_books-Good (charge orgs b cp.lifetime_bytes x.lifetime_bytes 0 rows)
              (charge-Good b cp.lifetime_bytes x.lifetime_bytes 0 rows)))
          (λ s g. same_books s g refl refl) d good

    accept-IsGood :
        (b : Binding) (cp : Checkpoint)
        → Keeps (IsGood orgs) (accept reset_confirm_readings now x b cp)
    unfolding accept
    accept-IsGood b cp d good =
        follow_keeps (IsGood orgs) (settle reset_confirm_readings now x b cp)
          (priced reset_confirm_readings now x b cp d, d) (settle-IsGood b cp) good

    -- A reading, whatever becomes of it, keeps the books sound and every organization within its
    -- credit, also in the session that an exception leaves behind.
    pub observe-IsGood : Keeps (IsGood orgs) (observe reset_confirm_readings now x)
    unfolding observe
    observe-IsGood d good = elim (Option-cases (find (λ y. y.id == x.binding_id) d.bindings)) [
      | inl gone ↦ rw (gone, observe) good
      | inr (b, found) ↦ elim (Option-cases (find_checkpoint b.id d.checkpoints)) [
        | inl first ↦ rw (found, observe, first) (first_reading-IsGood d good)
        | inr (cp, known) ↦ elim (Bool-cases (ltb x.lifetime_bytes cp.lifetime_bytes)) [
          | inl less ↦ rw (found, observe, known, less) (regress-IsGood b cp d good)
          | inr more ↦ rw (found, observe, known, more) (accept-IsGood b cp d good)
        ]
      ]
    ]
