-- ===== src/Tenancy/Walk.antt =====
-- The walk from an organization to its root (app.py: edges): it ends on every table, cyclic ones
-- included, and what it returns is the chain of payers with their prices.
use pasarguard_control_plane.Base.{
  ℕ, zero, suc, ◌+◌, ◌≤◌, ◌<◌, ◌≡◌, refl, ◌≢◌, Bool, true, false, Option, none, some, List, [], ◌∷◌,
  arith, ◌==◌, if◌then◌else◌, any, length, Result, ok, err, hierarchy_cycle, contract_missing,
  Option-cases, Bool-cases, inl, inr, ◌⊎◌, ==_iff, find-passes, sym, ◌∙◌,
}
use pasarguard_control_plane.Domain.{Edge}
use pasarguard_control_plane.Tenancy.{
  Organization, Contract, Tenants, get_org, active_contract, add_edge, walk, edges,
}

abbrev seen_before : List ℕ → Organization → Bool
seen_before seen x = any (λ y. y == x.id) seen

-- how many rows of the table the walk has not been at
abbrev unseen : List ℕ → List Organization → ℕ
unseen seen [] = 0
unseen seen (x ∷ orgs) = (if seen_before seen x then 0 else 1) + unseen seen orgs

unseen_mono :
    (o : ℕ) (seen : List ℕ) (orgs : List Organization) → unseen (o ∷ seen) orgs ≤ unseen seen orgs
unseen_mono o seen [] = omega arith
unseen_mono o seen (x ∷ orgs) = ground (arith, unseen_mono o seen orgs)

unseen-lt :
    (o : ℕ) (seen : List ℕ) (x : Organization) (orgs : List Organization)
    → get_org o orgs ≡ some x
    → seen_before seen x ≡ false
    → unseen (x.id ∷ seen) orgs < unseen seen orgs
unseen-lt o seen x [] found new = cc
unseen-lt o seen x (y ∷ orgs) found new =
    ground (arith, unseen-lt o seen x orgs, unseen_mono x.id seen orgs)

unseen-nil : (orgs : List Organization) → unseen [] orgs ≡ length orgs
unseen-nil [] = refl
unseen-nil (x ∷ orgs) = omega (arith, unseen-nil orgs)

add_edge-ne : (e : Edge) (r : Option (Result (List Edge))) → r ≢ none → add_edge e r ≢ none
unfolding add_edge
add_edge-ne e none h = absurd (h refl)
add_edge-ne e (some (ok rest)) h = ground arith
add_edge-ne e (some (err x)) h = ground arith

-- the edge that a step adds
abbrev edge_of : Organization → ℕ → Contract → Edge
edge_of x p c = record { child_id = x.id; parent_id = p; rate_irr = c.price_per_gib_irr }

-- The ways that one step of the walk at a known organization can go.
data Step (t : Tenants) (seen : List ℕ) (x : Organization) (fuel : ℕ) : Type 0 where
  at_root : x.parent_id ≡ none → walk (suc fuel) t seen (some x) ≡ some (ok []) → Step t seen x fuel
  cyclic :
      seen_before seen x ≡ true
      → walk (suc fuel) t seen (some x) ≡ some (err hierarchy_cycle)
      → Step t seen x fuel
  unpriced :
      active_contract x.id t.contracts ≡ none
      → walk (suc fuel) t seen (some x) ≡ some (err contract_missing)
      → Step t seen x fuel
  climbs :
      (p : ℕ) (c : Contract)
      → x.parent_id ≡ some p
      → seen_before seen x ≡ false
      → active_contract x.id t.contracts ≡ some c
      → walk (suc fuel) t seen (some x)
        ≡ add_edge (edge_of x p c) (walk fuel t (x.id ∷ seen) (get_org p t.organizations))
      → Step t seen x fuel

step : (t : Tenants) (seen : List ℕ) (x : Organization) (fuel : ℕ) → Step t seen x fuel
unfolding walk
step t seen x fuel = elim (Option-cases x.parent_id) [
  | inl root ↦ Step.at_root root (rw (root, walk))
  | inr (p, child) ↦ elim (Bool-cases (seen_before seen x)) [
    | inl again ↦ Step.cyclic again (rw (child, walk, again))
    | inr new ↦ elim (Option-cases (active_contract x.id t.contracts)) [
      | inl gap ↦ Step.unpriced gap (rw (child, walk, new, gap))
      | inr (c, priced) ↦ Step.climbs p c child new priced (rw (child, walk, new, priced))
    ]
  ]
]

module _ (t : Tenants) where
  walk-ne-none :
      (fuel : ℕ) (seen : List ℕ) (o : ℕ)
      → unseen seen t.organizations < fuel
      → walk fuel t seen (get_org o t.organizations) ≢ none
  unfolding walk
  walk-ne-none zero seen o h = absurd (omega arith)
  walk-ne-none (suc fuel) seen o h = elim (Option-cases (get_org o t.organizations)) [
    | inl gone ↦ rw (gone, walk) (λ e. cc)
    | inr (x, found) ↦ rw found (elim (step t seen x fuel) [
      | Step.at_root _ e ↦ rw e (λ z. cc)
      | Step.cyclic _ e ↦ rw e (λ z. cc)
      | Step.unpriced _ e ↦ rw e (λ z. cc)
      | Step.climbs p c child new priced e ↦ rw e (
          add_edge-ne (edge_of x p c) (walk fuel t (x.id ∷ seen) (get_org p t.organizations)) (
            walk-ne-none fuel (x.id ∷ seen) p
              (omega (arith, unseen-lt o seen x t.organizations found new))))
    ])
  ]

  -- A row of the walk is an organization with its parent and the price of its active contract, the
  -- next row is its parent's, and the last parent is a root or is not on the table.
  abbrev pub IsChain : ℕ → List Edge → Type 0
  IsChain o [] =
      (get_org o t.organizations ≡ none)
      ⊎ ((x : Organization) × (get_org o t.organizations ≡ some x) × (x.parent_id ≡ none))
  IsChain o (e ∷ rest) =
      ((x : Organization) × (get_org o t.organizations ≡ some x) × (x.parent_id ≡ some e.parent_id))
      × ((c : Contract) × (active_contract o t.contracts ≡ some c)
          × (e.rate_irr ≡ c.price_per_gib_irr))
      × (e.child_id ≡ o)
      × IsChain e.parent_id rest

  add_edge-IsChain :
      (o p : ℕ) (x : Organization) (c : Contract) (r : Option (Result (List Edge))) (es : List Edge)
      → get_org o t.organizations ≡ some x
      → x.id ≡ o
      → x.parent_id ≡ some p
      → active_contract x.id t.contracts ≡ some c
      → ((rest : List Edge) → r ≡ some (ok rest) → IsChain p rest)
      → add_edge (edge_of x p c) r ≡ some (ok es)
      → IsChain o es
  unfolding add_edge
  add_edge-IsChain o p x c none es found own child priced ih e = cc
  add_edge-IsChain o p x c (some (err y)) es found own child priced ih e = cc
  add_edge-IsChain o p x c (some (ok rest)) es found own child priced ih e =
      let same : edge_of x p c ∷ rest ≡ es = cc in
      rw (← same) ((x, found, child), (c, rw (← own) priced, refl), own, ih rest refl)

  walk-IsChain :
      (fuel : ℕ) (seen : List ℕ) (o : ℕ) (es : List Edge)
      → walk fuel t seen (get_org o t.organizations) ≡ some (ok es)
      → IsChain o es
  unfolding walk
  walk-IsChain zero seen o es h = cc
  walk-IsChain (suc fuel) seen o es h = elim (Option-cases (get_org o t.organizations)) [
    | inl gone ↦
        let ended : ◌≡◌ {A = List Edge} [] es = cc (rw (gone, walk) at h) in rw (← ended) (inl gone)
    | inr (x, found) ↦
        let g : walk (suc fuel) t seen (some x) ≡ some (ok es) = rw found at h in
        elim (step t seen x fuel) [
          | Step.at_root root e ↦
              let ended : ◌≡◌ {A = List Edge} [] es = cc (e, g) in
              rw (← ended) (inr (x, found, root))
          | Step.cyclic _ e ↦ cc (e, g)
          | Step.unpriced _ e ↦ cc (e, g)
          | Step.climbs p c child new priced e ↦
              add_edge-IsChain o p x c (walk fuel t (x.id ∷ seen) (get_org p t.organizations)) es
                found ((==_iff x.id o).0 (find-passes (λ y. y.id == o) t.organizations x found))
                child priced (walk-IsChain fuel (x.id ∷ seen) p) (sym e ∙ g)
        ]
  ]

-- The walk ends with a list of edges or an exception, whatever the tables hold, cycles included;
-- and a list that it returns is the chain of payers from the organization up to its root.
pub edges-IsChain :
    (t : Tenants) (o : ℕ)
    → (edges t o ≢ none) × ((es : List Edge) → edges t o ≡ some (ok es) → IsChain t o es)
unfolding edges
edges-IsChain t o = (
  walk-ne-none t (suc (suc (length t.organizations))) [] o
      (omega (arith, unseen-nil t.organizations)),
  walk-IsChain t (suc (suc (length t.organizations))) [] o,
)
