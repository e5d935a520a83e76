-- ===== src/Instance/RateLimiter/Bounds.antt =====
-- How many requests a bucket lets pass, with its tokens counted exactly.
use copilot_pool_gateway.Base.{ℕ, ◌+◌, ◌≤◌, List, [], ◌∷◌, if◌then◌else◌}
use copilot_pool_gateway.Instance.RateLimiter.{TokenBucket, allow}

-- The number of requests, at the given times, that the bucket lets pass.
unfoldable pub granted : List ℕ → TokenBucket → ℕ
unfolding allow
granted [] b = 0
granted (now ∷ rest) b =
    let ((allowed, _), b') = allow now b in
    let more = granted rest b' in if allowed then more + 1 else more

-- The times are in order, from `low` to `high`.
abbrev pub InOrder : ℕ → ℕ → List ℕ → Type 0
InOrder low high [] = low ≤ high
InOrder low high (t ∷ rest) = (low ≤ t) × InOrder t high rest
