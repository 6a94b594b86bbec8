-- ===== src/Usage/Requests.antt =====
-- What the two endpoints commit when a settlement is refused (api.py: usage, usage_batch).
use pasarguard_control_plane.Base.{
  ℕ, ◌+◌, ◌≡◌, refl, true, false, some, none, List, [], ◌∷◌, ltb, ◌==◌, find, insufficient_credit,
  billing_hold, http, Result, ok, err, ap, follow, ◌∙◌,
}
use pasarguard_control_plane.Domain.{Settlement}
use pasarguard_control_plane.Ledger.{find_transaction, transfer}
use pasarguard_control_plane.Ledger.Credit.{Unmoved, Ended, returned-Ended}
use pasarguard_control_plane.Ledger.Replay.{transfer_records}
use pasarguard_control_plane.Ledger.Rows.{Owner, Key, Kind, Books, Transaction}
use pasarguard_control_plane.Store.{Db, on_books, on_outbox}
use pasarguard_control_plane.Store.Rows.{Binding, Checkpoint}
use pasarguard_control_plane.Usage.{
  UsageIn, after_charge, charge, as_hold, settle, accept, priced, observe, find_checkpoint,
  record_hold, usage, usage_batch, batch, settled_tail,
}

-- the charge of one row, as the loop makes it
abbrev pub charge_row : Db → Binding → ℕ → ℕ → Settlement → Books → Result Transaction × Books
charge_row d b from to x =
    transfer d.tenants.organizations (Owner.org x.child_id) (Owner.org x.parent_id) x.amount_irr
      (Key.usage b.id from to x.child_id) Kind.usage (some b.id) true none

-- A reading of a known binding above its checkpoint whose first charge goes through and whose
-- second meets a reseller without credit.
pub record HalfPaid (d : Db) (x : UsageIn) (reset_confirm_readings now : ℕ) : Type 0 where
  pub binding : Binding
  pub checkpoint : Checkpoint
  pub first : Settlement
  pub second : Settlement
  pub others : List Settlement
  pub transaction : Transaction
  pub after_first : Books
  pub after_second : Books
  pub found : find (λ y. y.id == x.binding_id) d.bindings ≡ some binding
  pub known : find_checkpoint binding.id d.checkpoints ≡ some checkpoint
  pub above : ltb x.lifetime_bytes checkpoint.lifetime_bytes ≡ false
  pub rows : priced reset_confirm_readings now x binding checkpoint d ≡ ok (first ∷ second ∷ others)
  pub paid :
      charge_row d binding checkpoint.lifetime_bytes x.lifetime_bytes first d.books
      ≡ (ok transaction, after_first)
  pub refused :
      charge_row d binding checkpoint.lifetime_bytes x.lifetime_bytes second after_first
      ≡ (err insufficient_credit, after_second)

module _ (reset_confirm_readings now : ℕ) (x : UsageIn) (d : Db)
    (h : HalfPaid d x reset_confirm_readings now) where
  open h use {binding, checkpoint, first, second, others, transaction, after_first, after_second}

  charge_held :
      charge d.tenants.organizations binding checkpoint.lifetime_bytes x.lifetime_bytes 0
        (first ∷ second ∷ others)
        d.books
      ≡ (err (billing_hold binding.id binding.organization_id (0 + first.amount_irr)), after_second)
  unfolding charge
  charge_held =
      let orgs = d.tenants.organizations in
      let from = checkpoint.lifetime_bytes in
      let to = x.lifetime_bytes in
      ap
        (after_charge (charge orgs binding from to (0 + first.amount_irr) (second ∷ others))
          (as_hold orgs binding from to 0))
        h.paid
      ∙ ap
          (after_charge
            (charge orgs binding from to (0 + first.amount_irr + second.amount_irr) others)
            (as_hold orgs binding from to (0 + first.amount_irr)))
          h.refused

  observe_held : observe reset_confirm_readings now x d ≡ (
    err (billing_hold binding.id binding.organization_id (0 + first.amount_irr)),
    record d { books = after_second },
  )
  unfolding observe accept settle on_books
  observe_held =
      rw (h.found, observe, h.known, h.above, h.rows)
        (ap
          (λ z.
            follow
              (λ _. settled_tail reset_confirm_readings now x checkpoint (first ∷ second ∷ others))
              (z.0, record d { books = z.1 }))
          charge_held)

  -- The single endpoint refuses such a reading with 402 and takes the first charge back: the ledger
  -- and the checkpoint are as before.
  pub usage_takes_back :
      let (r, d') = usage reset_confirm_readings now x d in
      (r ≡ err (http 402)) × (d'.books ≡ d.books) × (d'.checkpoints ≡ d.checkpoints)
  unfolding usage record_hold on_outbox
  usage_takes_back = rw (observe_held, usage) (refl, refl, refl)

  still : Unmoved after_first after_second
  still =
      (returned-Ended d.tenants.organizations (Owner.org second.child_id)
        (Owner.org second.parent_id) second.amount_irr
        (Key.usage binding.id checkpoint.lifetime_bytes x.lifetime_bytes second.child_id) Kind.usage
        (some binding.id) true none after_first h.refused).0

  -- A batch of one reading, of a known binding at or above its checkpoint, whose first charge goes
  -- through and whose second is refused for want of credit. The endpoint answers with 402, and
  -- commits the first charge but no checkpoint: the transaction of the charge is on record, every
  -- wallet reads as right behind it, and the checkpoints are as before. The charge has moved its
  -- amount from the child of its row to the parent, unless its key had a transaction before.
  pub usage_batch-keeps_half :
      let (r, d') = usage_batch reset_confirm_readings now (x ∷ []) d in
      (r ≡ err (http 402))
      × (d'.checkpoints ≡ d.checkpoints)
      × (find_transaction
            (Key.usage binding.id checkpoint.lifetime_bytes x.lifetime_bytes first.child_id)
            d'.books.transactions
          ≡ some transaction)
      × (d'.books ≡ after_second)
      × Unmoved after_first d'.books
      × Ended d.tenants.organizations
          (Owner.org first.child_id)
          (Owner.org first.parent_id)
          first.amount_irr
          (Key.usage binding.id checkpoint.lifetime_bytes x.lifetime_bytes first.child_id)
          Kind.usage
          (some binding.id)
          true
          none
          d.books
          (ok transaction, after_first)
  unfolding usage_batch record_hold on_outbox batch
  usage_batch-keeps_half =
      let orgs = d.tenants.organizations in
      let child = Owner.org first.child_id in
      let parent = Owner.org first.parent_id in
      let key = Key.usage binding.id checkpoint.lifetime_bytes x.lifetime_bytes first.child_id in
      rw (observe_held, usage_batch, batch)
        (
          refl,
          refl,
          ap (find_transaction key) still.2
              ∙ transfer_records orgs child parent first.amount_irr key Kind.usage (some binding.id)
                  true none d.books h.paid,
          refl,
          still,
          returned-Ended orgs child parent first.amount_irr key Kind.usage (some binding.id) true
              none d.books h.paid,
        )
