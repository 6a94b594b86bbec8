-- ===== src/Orders/Shown.antt =====
-- What the funnel shows can be bought, and a reviewer sees the own orders only (web_api.py:
-- saleable_plan_rows against priced_plan, order_queue).
use pasarguard_control_plane.Base.{
  ℕ, ◌≡◌, refl, subst, Bool, true, ◌&&◌, some, List, [], ◌∷◌, ◌==◌, ltb, find, any, All, where_rows,
  where_rows-passes, where_rows-All, sort_by, sort_by-All, take-All, All-weaken, find-All,
  find-passes, ok, All-both, length, length-take, ◌≤◌, arith, inl, inr, Bool-cases, Option-cases,
}
use pasarguard_control_plane.Store.{Db}
use pasarguard_control_plane.Store.Rows.{
  is_active, Panel, PlanCategory, Plan, OrderStatus, PanelOrder,
}
use pasarguard_control_plane.Orders.{status_index, on_open_shelf, priced_plan, saleable_panel}
use pasarguard_control_plane.Orders.Lists.{
  on_sale, shelf_is_open, shown_on, plan_row, plan_rows, saleable_plan_rows, queued, review_panels,
}

-- the row that an id finds
abbrev IsKey : Db → Plan → Type 0
IsKey d p = find (λ q. q.id == p.id) d.plans ≡ some p

-- a plan's shelf is one of its own organization
abbrev IsShelved : Db → Plan → Type 0
IsShelved d p =
    (c : ℕ) (shelf : PlanCategory)
    → p.category_id ≡ some c
    → find (λ x. x.id == c) d.categories ≡ some shelf
    → (shelf.organization_id == p.organization_id) ≡ true

-- Ids are keys, and plans stand on shelves of their own organization.
pub record IsCatalog (d : Db) : Type 0 where
  pub plans : All (λ p. IsKey d p × IsShelved d p) d.plans
  pub panels : All (λ p. find (λ q. q.id == p.id) d.panels ≡ some p) d.panels
  pub shelves : All (λ c. find (λ x. x.id == c.id) d.categories ≡ some c) d.categories

-- the plan can be bought on its server
abbrev pub IsBuyable : Db → Plan → Type 0
IsBuyable d p =
    (panel : Panel) × (saleable_panel p.panel_id d ≡ (ok panel, d))
    × (priced_plan panel (some p.id) d ≡ (ok (some p), d))

open_row :
    (c : ℕ) (rows : List PlanCategory)
    → any (λ x. x.id == c && is_active x.status) rows ≡ true
    → (x : PlanCategory) × (find (λ x. x.id == c && is_active x.status) rows ≡ some x)
open_row c [] h = cc
open_row c (x ∷ rows) h = elim (Bool-cases (x.id == c && is_active x.status)) [
  | inl e ↦ (x, rw e refl)
  | inr e ↦ rw e (open_row c rows (rw e at h))
]

module _ (d : Db) (k : IsCatalog d) where
  shelf_open :
      (p : Plan)
      → IsShelved d p
      → shelf_is_open p.category_id d.categories ≡ true
      → on_open_shelf p d ≡ true
  unfolding on_open_shelf
  shelf_open p s h = elim (Option-cases p.category_id) [
    | inl e ↦ rw (e, on_open_shelf) refl
    | inr (c, e) ↦
        let (x, found) = open_row c d.categories (rw e at h) in
        let passes : (x.id == c && is_active x.status) ≡ true =
          find-passes (λ x. x.id == c && is_active x.status) d.categories x found in
        let same : x.id ≡ c = ground (arith, passes) in
        let key : find (λ y. y.id == x.id) d.categories ≡ some x =
          find-All (λ c. find (λ y. y.id == c.id) d.categories ≡ some c)
            (λ x. x.id == c && is_active x.status) d.categories x k.shelves found in
        let here : find (λ y. y.id == c) d.categories ≡ some x =
          subst (λ z. find (λ y. y.id == z) d.categories ≡ some x) same key in
        let own : (x.organization_id == p.organization_id) ≡ true = s c x e here in
        rw (e, on_open_shelf, here, own) (ground (arith, passes))
  ]

  buyable :
      (p : Plan) (panel : Panel)
      → IsKey d p × IsShelved d p
      → is_active p.status ≡ true
      → shown_on d p ≡ some panel
      → shelf_is_open p.category_id d.categories ≡ true
      → IsBuyable d p
  unfolding shown_on saleable_panel priced_plan
  buyable p panel (key, shelved) active shown open_now =
      let passes : (panel.id == p.panel_id && on_sale panel) ≡ true =
        find-passes (λ x. x.id == p.panel_id && on_sale x) d.panels panel shown in
      let same : panel.id ≡ p.panel_id = ground (arith, passes) in
      let own : find (λ y. y.id == panel.id) d.panels ≡ some panel =
        find-All (λ x. find (λ y. y.id == x.id) d.panels ≡ some x)
          (λ x. x.id == p.panel_id && on_sale x) d.panels panel k.panels shown in
      let here : find (λ y. y.id == p.panel_id) d.panels ≡ some panel =
        subst (λ z. find (λ y. y.id == z) d.panels ≡ some panel) same own in
      let on : on_sale panel ≡ true = ground (arith, passes) in
      let match : (p.panel_id == panel.id) ≡ true = ground (arith, same) in
      (
        panel,
        rw (here, saleable_panel, on) refl,
        rw (key, priced_plan, active, match, shelf_open p shelved open_now) refl,
      )

  rows-IsBuyable :
      (plans : List Plan)
      → All (λ p. (IsKey d p × IsShelved d p) × (is_active p.status ≡ true)) plans
      → All (λ r. IsBuyable d r.plan) (plan_rows d plans)
  unfolding plan_rows plan_row
  rows-IsBuyable [] h = tt
  rows-IsBuyable (p ∷ plans) h = elim (Option-cases (shown_on d p)) [
    | inl e ↦ rw (e, plan_rows) (rows-IsBuyable plans h.1)
    | inr (panel, e) ↦
        rw (e, plan_rows)
          (elim (Bool-cases (shelf_is_open p.category_id d.categories)) [
            | inl f ↦ rw f (buyable p panel h.0.0 h.0.1 e f, rows-IsBuyable plans h.1)
            | inr f ↦ rw f (rows-IsBuyable plans h.1)
          ])
  ]

-- Where ids are keys and plans stand on shelves of their own organization, every plan that the
-- funnel shows can be bought at once: its server is for sale, and pricing an order with it finds
-- that plan.
pub saleable_plan_rows-IsBuyable :
    (d : Db) → IsCatalog d → All (λ r. IsBuyable d r.plan) (saleable_plan_rows d)
unfolding saleable_plan_rows
saleable_plan_rows-IsBuyable d k =
    let active : Plan → Bool = λ p. is_active p.status in
    let rows = where_rows active d.plans in
    rows-IsBuyable d k (sort_by (λ p q. ltb p.price_per_gib_irr q.price_per_gib_irr) rows) (
      sort_by-All (λ p q. ltb p.price_per_gib_irr q.price_per_gib_irr)
        (λ p. (IsKey d p × IsShelved d p) × (is_active p.status ≡ true)) rows
        (All-both (λ p. IsKey d p × IsShelved d p) (λ p. is_active p.status ≡ true) rows
          (where_rows-All (λ p. IsKey d p × IsShelved d p) active d.plans k.plans)
          (where_rows-passes active d.plans)))

-- A reviewer's queue is no longer than its limit, and holds only orders in the status asked for,
-- each for a server that is linked to the reviewer's organization.
pub queued-own :
    (limit : ℕ) (status : OrderStatus) (organization : ℕ) (d : Db)
    → (length (queued limit status organization d) ≤ limit)
      × All
          (λ o.
            (status_index o.status ≡ status_index status)
            × (review_panels organization d o.panel_id ≡ true))
          (queued limit status organization d)
unfolding queued
queued-own limit status organization d =
    let test : PanelOrder → Bool = λ o.
      status_index o.status == status_index status && review_panels organization d o.panel_id in
    let rows = where_rows test d.orders in
    (
      length-take limit rows,
      take-All
          (λ o.
            (status_index o.status ≡ status_index status)
            × (review_panels organization d o.panel_id ≡ true))
          limit rows
          (All-weaken (λ o. test o ≡ true) _ rows (λ o h. (ground (arith, h), ground (arith, h)))
            (where_rows-passes test d.orders)),
    )
