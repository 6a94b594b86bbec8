-- ===== src/Approvals/Adjust.antt =====
-- Corrections of a wallet and the expiry of their requests (web_api.py: apply_wallet_adjustment,
-- locked_pending_approval).
use pasarguard_control_plane.Base.{
  ℕ, zero, suc, ◌≡◌, refl, true, false, some, List, [], ◌∷◌, arith, ◌==◌, leb, find, inl, inr, sym,
  find-passes, ==_iff, err, http, ℤ, ◌∙◌, ap,
}
use pasarguard_control_plane.Tenancy.{Organization}
use pasarguard_control_plane.Ledger.Rows.{Owner, Key, Kind, Books}
use pasarguard_control_plane.Ledger.Sound.{IsSound, transfer-IsSound}
use pasarguard_control_plane.Ledger.Credit.{IsSolvent, transfer-IsSolvent}
use pasarguard_control_plane.Store.{Db}
use pasarguard_control_plane.Store.Rows.{ApprovalStatus, ApprovalRequest}
use pasarguard_control_plane.Approvals.{
  is_pending, put_row, put_approval, locked_pending_approval, adjust,
}

module _ (orgs : List Organization) (organization approval actor : ℕ) (b : Books) where
  -- A correction of any amount and sign, whether the ledger posts or refuses it, keeps sound books
  -- sound and every organization within its credit limit.
  pub adjust-IsSolvent :
      (amount : ℤ)
      → IsSound b
      → IsSolvent orgs b
      → let b' = (adjust orgs organization amount approval actor b).1 in
        IsSound b' × IsSolvent orgs b'
  unfolding adjust
  adjust-IsSolvent (ℤ.pos zero) s h = (
    transfer-IsSound orgs (Owner.org organization) Owner.system 0 (Key.approval approval)
        Kind.adjustment (some approval) true (some actor) b s,
    transfer-IsSolvent orgs (Owner.org organization) Owner.system 0 (Key.approval approval)
        Kind.adjustment (some approval) true (some actor) b (inl refl) h,
  )
  adjust-IsSolvent (ℤ.pos (suc n)) s h = (
    transfer-IsSound orgs Owner.system (Owner.org organization) (suc n) (Key.approval approval)
        Kind.adjustment (some approval) false (some actor) b s,
    transfer-IsSolvent orgs Owner.system (Owner.org organization) (suc n) (Key.approval approval)
        Kind.adjustment (some approval) false (some actor) b (inr refl) h,
  )
  adjust-IsSolvent (ℤ.negsuc n) s h = (
    transfer-IsSound orgs (Owner.org organization) Owner.system (suc n) (Key.approval approval)
        Kind.adjustment (some approval) true (some actor) b s,
    transfer-IsSolvent orgs (Owner.org organization) Owner.system (suc n) (Key.approval approval)
        Kind.adjustment (some approval) true (some actor) b (inl refl) h,
  )

abbrev pub expired : ℕ → ApprovalRequest → ApprovalRequest
expired now a = record a { status = ApprovalStatus.expired; decided_at = some now }

find_row-put_row :
    (a old : ApprovalRequest) (rows : List ApprovalRequest)
    → find (λ x. x.id == a.id) rows ≡ some old
    → find (λ x. x.id == a.id) (put_row a rows) ≡ some a
unfolding put_row
find_row-put_row a old [] e = ground arith
find_row-put_row a old (x ∷ rows) e = ground (arith, find_row-put_row a old rows)

find-expired :
    (id now : ℕ) (a : ApprovalRequest) (rows : List ApprovalRequest)
    → find (λ x. x.id == id) rows ≡ some a
    → find (λ x. x.id == id) (put_row (expired now a) rows) ≡ some (expired now a)
find-expired id now a rows found =
    let same : a.id ≡ id = (==_iff a.id id).0 (find-passes (λ x. x.id == id) rows a found) in
    ap (λ i. find (λ x. x.id == i) (put_row (expired now a) rows)) (sym same)
    ∙ find_row-put_row (expired now a) a rows (ap (λ i. find (λ x. x.id == i) rows) same ∙ found)

module _ (approval_id now : ℕ) (a : ApprovalRequest) (d : Db) where
  -- Whoever asks for a waiting request at or after its time gets 410, and the request stays
  -- marked as expired; asked for again at any later time, it is refused with 409.
  pub locked_pending_approval-expires :
      find (λ x. x.id == approval_id) d.approvals ≡ some a
      → is_pending a.status ≡ true
      → leb a.expires_at now ≡ true
      → (later : ℕ)
      → let (r, d') = locked_pending_approval approval_id now d in
        (r ≡ err (http 410))
        × (d'.books ≡ d.books)
        × (d'.approvals ≡ put_row (expired now a) d.approvals)
        × (locked_pending_approval approval_id later d' ≡ (err (http 409), d'))
  unfolding locked_pending_approval put_approval
  locked_pending_approval-expires found waits late later =
      rw (found, waits, late, locked_pending_approval)
        (refl, refl, refl, rw (find-expired approval_id now a d.approvals found) refl)
