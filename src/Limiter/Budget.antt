-- ===== src/Limiter/Budget.antt =====
-- The budget of a key (observability.py: RateLimiter.allow).
use pasarguard_control_plane.Base.{ℕ, ◌≤◌, length, All}
use pasarguard_control_plane.Limiter.{Hits}

-- no key has more hits on record than its budget
abbrev pub IsWithin : ℕ → Hits → Type 0
IsWithin limit = All (λ row. length row.1 ≤ limit)
