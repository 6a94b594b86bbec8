-- ===== src/Limiter.antt =====
-- The rate limiter of src/control_plane/observability.py (RateLimiter), without its lock: a call
-- holds it from its first read to its last write. Times are those of the monotonic clock.
pub mod Budget
use pasarguard_control_plane.Base.{
  ℕ, ◌+◌, ◌-◌, String, str_eq, Bool, true, false, List, [], ◌∷◌, ◌++◌, leb, ltb, length,
  if◌then◌else◌, ◌==◌,
}

-- the deques by their keys
abbrev pub Hits : Type 0
Hits = List (String × List ℕ)

-- the deque of a key, made when there is none
unfoldable pub hits_of : String → Hits → List ℕ
hits_of key [] = []
hits_of key ((k, hits) ∷ table) =
    let rest = hits_of key table in if str_eq k key then hits else rest

unfoldable pub put_hits : String → List ℕ → Hits → Hits
put_hits key hits [] = (key, hits) ∷ []
put_hits key hits ((k, old) ∷ table) =
    let rest = put_hits key hits table in
    if str_eq k key then (k, hits) ∷ table else (k, old) ∷ rest

-- the old hits fall off the front
unfoldable pub evict : ℕ → ℕ → List ℕ → List ℕ
evict window now [] = []
evict window now (t ∷ hits) =
    let rest = evict window now hits in if ltb window (now - t) then rest else t ∷ hits

unfoldable pub allow : ℕ → ℕ → ℕ → String → Hits → Bool × Hits
unfolding hits_of put_hits evict
allow limit window now key table =
    let live = evict window now (hits_of key table) in
    let counted = put_hits key (live ++ now ∷ []) table in
    if limit == 0
    then (true, table)
    else if leb limit (length live)
    then (false, put_hits key live table)
    else (true, if ltb 50000 (length counted) then [] else counted)
