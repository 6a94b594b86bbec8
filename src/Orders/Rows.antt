-- ===== src/Orders/Rows.antt =====
-- What rewriting or adding a row does to the orders of a table (src/control_plane/web_api.py).
use pasarguard_control_plane.Base.{
  ℕ, ◌≡◌, ◌≢◌, refl, ap, sym, ◌∙◌, ◌⊎◌, inl, inr, true, Option, some, none, List, [], ◌∷◌, ◌++◌,
  ◌==◌, arith, find, Bool-cases, subst,
}
use pasarguard_control_plane.Store.Rows.{PanelOrder}
use pasarguard_control_plane.Orders.{may_become, put_row}

-- the row of an order
abbrev pub order_at : ℕ → List PanelOrder → Option PanelOrder
order_at id = find (λ o. o.id == id)

-- Every order is still there, and is as before or has moved along the flow.
abbrev pub Steps : List PanelOrder → List PanelOrder → Type 0
Steps rows rows' =
    (id : ℕ) (o : PanelOrder)
    → order_at id rows ≡ some o
    → (o' : PanelOrder) × (order_at id rows' ≡ some o')
      × ((o' ≡ o) ⊎ (may_become o.status o'.status ≡ true))

pub find_row-append :
    (id : ℕ) (o : PanelOrder) (xs ys : List PanelOrder)
    → order_at id xs ≡ some o
    → order_at id (xs ++ ys) ≡ some o
find_row-append id o [] ys e = ground arith
find_row-append id o (x ∷ xs) ys e = ground (arith, find_row-append id o xs ys)

find_row-put_row :
    (id : ℕ) (order : PanelOrder) (rows : List PanelOrder)
    → id ≢ order.id
    → order_at id (put_row order rows) ≡ order_at id rows
unfolding put_row
find_row-put_row id order [] ne = refl
find_row-put_row id order (x ∷ rows) ne = ground (arith, find_row-put_row id order rows ne)

find_row-put_row_same :
    (order o : PanelOrder) (rows : List PanelOrder)
    → order_at order.id rows ≡ some o
    → order_at order.id (put_row order rows) ≡ some order
unfolding put_row
find_row-put_row_same order o [] e = ground arith
find_row-put_row_same order o (x ∷ rows) e = ground (arith, find_row-put_row_same order o rows)

pub put_row-Steps :
    (order order' : PanelOrder) (rows : List PanelOrder)
    → order_at order'.id rows ≡ some order
    → may_become order.status order'.status ≡ true
    → Steps rows (put_row order' rows)
put_row-Steps order order' rows found allowed id o e = elim (Bool-cases (id == order'.id)) [
  | inl same ↦
      let at_id : id ≡ order'.id = ground (arith, same) in
      let is_order : some order ≡ some o = sym found ∙ sym (ap (λ i. order_at i rows) at_id) ∙ e in
      (
        order',
        ap (λ i. order_at i (put_row order' rows)) at_id
            ∙ find_row-put_row_same order' order rows found,
        inr (moves_as o is_order),
      )
  | inr ne ↦ (o, find_row-put_row id order' rows (ground (arith, ne)) ∙ e, inl refl)
]
  where
    moves_as : (o : PanelOrder) → some order ≡ some o → may_become o.status order'.status ≡ true
    moves_as o same =
        subst
          (λ z. elim z as (λ _. Type 0) [
            | none ↦ Unit
            | some x ↦ may_become x.status order'.status ≡ true
          ])
          same allowed
