-- ===== src/Domain.antt =====
-- The pricing kernel, src/control_plane/domain.py. A usage coefficient is a NUMERIC(10, 4): it is
-- held here in ten-thousandths. Decimal arithmetic is exact here, as it is in the source while a
-- product has at most 28 digits and an amount fewer than 15.
pub mod Pricing
use pasarguard_control_plane.Base.{
  ℕ, ◌+◌, ◌*◌, ◌/◌, Bool, true, false, ◌||◌, List, [], ◌∷◌, if◌then◌else◌, Error, negative_usage,
  Result, ok, err, ℤ, pos, negsuc, pos_part, ltb_ℤ,
}

abbrev pub gib : ℕ
gib = 1073741824

-- what a coefficient of one is
abbrev pub coefficient_scale : ℕ
coefficient_scale = 10000

-- `quantize(Decimal("1"), rounding=ROUND_HALF_UP)` of n / d
unfoldable pub round_half_up : ℕ → ℕ → ℕ
round_half_up n d = (2 * n + d) / (2 * d)

unfoldable pub price_usage : ℤ → ℤ → ℤ → Result ℕ
unfolding round_half_up
price_usage delta rate coefficient =
    if ltb_ℤ delta (pos 0) || ltb_ℤ rate (pos 0)
    then err negative_usage
    else if ltb_ℤ coefficient (pos 0)
    then err negative_usage
    else ok (
        round_half_up (pos_part delta * pos_part rate * pos_part coefficient)
          (gib * coefficient_scale))

-- (child, parent, price per GiB), from the paying organization up
pub record Edge : Type 0 where
  pub child_id : ℕ
  pub parent_id : ℕ
  pub rate_irr : ℕ

pub record Settlement : Type 0 where
  pub child_id : ℕ
  pub parent_id : ℕ
  pub delta_bytes : ℤ
  pub rate_irr : ℕ
  pub amount_irr : ℕ

-- one step of the comprehension: the row of an edge, in front of the rows behind it
pub add_row : ℤ → Edge → Result ℕ → Result (List Settlement) → Result (List Settlement)
add_row delta e (ok amount) (ok rows) = ok (
    record {
      child_id = e.child_id;
      parent_id = e.parent_id;
      delta_bytes = delta;
      rate_irr = e.rate_irr;
      amount_irr = amount;
    }
    ∷ rows)
add_row delta e (ok amount) (err x) = err x
add_row delta e (err x) rows = err x

unfoldable pub cascade : ℤ → List Edge → ℤ → Result (List Settlement)
unfolding price_usage add_row
cascade delta [] coefficient = ok []
cascade delta (e ∷ edges) coefficient =
    let rows = cascade delta edges coefficient in
    if ltb_ℤ (pos 0) delta
    then add_row delta e (price_usage delta (pos e.rate_irr) coefficient) rows
    else rows
