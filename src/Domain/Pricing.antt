-- ===== src/Domain/Pricing.antt =====
-- What a metered amount costs: rounding, monotonicity, readings taken in parts, and the cascade.
use Prim.Native.Nat.{ℕ, ◌+◌, ◌*◌, ◌≤◌, ◌<◌}
use pasarguard_control_plane.Base.{◌≡◌, refl, List, [], ◌∷◌, arith, ok, pos, map}
use pasarguard_control_plane.Domain.{
  gib, coefficient_scale, round_half_up, price_usage, Edge, Settlement, cascade,
}

-- The price of metered bytes at a rate and a coefficient that are not negative.
abbrev pub price : ℕ → ℕ → ℕ → ℕ
price delta rate coefficient = round_half_up (delta * rate * coefficient) (gib * coefficient_scale)

-- The rounded price lies within half a rial of the exact one, and a half goes up: twice the exact
-- numerator is at least the price less a half, and less than the price and a half.
pub price_nearest :
    (delta rate coefficient : ℕ)
    → (price_usage (pos delta) (pos rate) (pos coefficient) ≡ ok (price delta rate coefficient))
      × (price delta rate coefficient * (2 * 10737418240000)
          ≤ 2 * (delta * rate * coefficient) + 10737418240000)
      × (2 * (delta * rate * coefficient)
          < price delta rate coefficient * (2 * 10737418240000) + 10737418240000)
unfolding price_usage round_half_up
price_nearest delta rate coefficient = (ground arith, omega arith, omega arith)

scaled_mono : (a b r c : ℕ) → a ≤ b → a * r * c ≤ b * r * c
scaled_mono a b r c h = grind (arith, λ (p : a * r ≤ b * r). p)

-- More bytes never cost less.
pub price_mono :
    (delta delta' rate coefficient : ℕ)
    → delta ≤ delta'
    → price delta rate coefficient ≤ price delta' rate coefficient
unfolding round_half_up
price_mono delta delta' rate coefficient h =
    omega (arith, scaled_mono delta delta' rate coefficient h)

-- Metering the same bytes in two readings changes the bill by one rial at most.
pub price_split :
    (a b rate coefficient : ℕ)
    → (price (a + b) rate coefficient ≤ price a rate coefficient + price b rate coefficient + 1)
      × (price a rate coefficient + price b rate coefficient ≤ price (a + b) rate coefficient + 1)
unfolding round_half_up
price_split a b rate coefficient = (omega arith, omega arith)

-- the row of an edge
abbrev pub settled : ℕ → ℕ → Edge → Settlement
settled delta coefficient e = record {
  child_id = e.child_id;
  parent_id = e.parent_id;
  delta_bytes = pos delta;
  rate_irr = e.rate_irr;
  amount_irr = price delta e.rate_irr coefficient;
}

-- A positive reading charges every edge once, in order, at its own rate; no bytes charge nobody.
pub cascade_rows :
    (delta coefficient : ℕ) (edges : List Edge)
    → (0 < delta
        → cascade (pos delta) edges (pos coefficient) ≡ ok (map (settled delta coefficient) edges))
      × (cascade (pos 0) edges (pos coefficient) ≡ ok [])
unfolding cascade price_usage
cascade_rows delta coefficient [] = (λ h. refl, refl)
cascade_rows delta coefficient (e ∷ edges) = (
  λ h. ground (arith, (cascade_rows delta coefficient edges).0 h),
  (cascade_rows delta coefficient edges).1,
)
