-- ===== src/Instance/RateLimiter.antt =====
-- instance/rate_limiter.go: the token buckets. Times are numbers of nanoseconds, and tokens are
-- counted in units of 1 / 60000000000, so that a bucket of `rpm` requests per minute gains `rpm`
-- units in each nanosecond; the code computes the same quantities in floating point, which rounds, so
-- a bucket that is a unit away from a token may differ.
pub mod Bounds
use copilot_pool_gateway.Base.{
  ℕ, ◌+◌, ◌-◌, ◌*◌, ◌/◌, String, Bool, true, false, not, ◌&&◌, List, [], ◌∷◌, Option, none, some,
  ◌==◌, if◌then◌else◌, ltb, leb,
}
use copilot_pool_gateway.Base.StringMap.{StringMap, get, put}

-- One token, in units.
abbrev pub token : ℕ
token = 60000000000

abbrev pub second : ℕ
second = 1000000000

pub record TokenBucket : Type 0 where
  pub tokens : ℕ
  pub max_tokens : ℕ
  pub refill_rate : ℕ
  pub last_refill : ℕ

-- NewTokenBucket
unfoldable pub new_token_bucket : ℕ → ℕ → TokenBucket
new_token_bucket rpm now = record {
  tokens = rpm * token;
  max_tokens = rpm * token;
  refill_rate = rpm;
  last_refill = now;
}

abbrev pub min : ℕ → ℕ → ℕ
min a b = if leb a b then a else b

-- The tokens after the refill of Allow.
unfoldable pub refilled : ℕ → TokenBucket → ℕ
refilled now b = min b.max_tokens (b.tokens + (now - b.last_refill) * b.refill_rate)

-- `math.Ceil` of the seconds until one token is there.
unfoldable pub wait_seconds : ℕ → ℕ → ℕ
wait_seconds tokens rate = (token - tokens + (rate * second - 1)) / (rate * second)

-- Allow: whether the request may pass, and after how many seconds to retry.
unfoldable pub allow : ℕ → TokenBucket → (Bool × ℕ) × TokenBucket
unfolding refilled wait_seconds
allow now b =
    let tokens' = refilled now b in
    if leb token tokens'
    then ((true, 0), record b { tokens = tokens' - token; last_refill = now })
    else (
      (false, wait_seconds tokens' b.refill_rate),
      record b { tokens = tokens'; last_refill = now },
    )

-- RateLimiterManager; a limit that is not positive is 0.
pub record RateLimiterManager : Type 0 where
  pub global_limiter : Option TokenBucket
  pub account_limiters : StringMap TokenBucket
  pub per_account_rpm : ℕ

-- InitRateLimiter, with the number that the environment variable holds, if it holds one.
unfoldable pub init_rate_limiter : Option ℕ → ℕ → RateLimiterManager → RateLimiterManager
unfolding new_token_bucket
init_rate_limiter none now m = m
init_rate_limiter (some rpm) now m =
    if ltb 0 rpm then record m { global_limiter = some (new_token_bucket rpm now) } else m

-- SetPerAccountRPM
unfoldable pub set_per_account_rpm : ℕ → RateLimiterManager → RateLimiterManager
set_per_account_rpm rpm m = record m { per_account_rpm = rpm; account_limiters = [] }

abbrev or_new : ℕ → ℕ → Option TokenBucket → TokenBucket
or_new rpm now none = new_token_bucket rpm now
or_new rpm now (some b) = b

abbrev keep_limiter :
    String → (Bool × ℕ) × TokenBucket → RateLimiterManager → (Bool × ℕ) × RateLimiterManager
keep_limiter account_id (answer, b) m =
    (answer, record m { account_limiters = put m.account_limiters account_id b })

-- The check of the account's limit, with getOrCreateAccountLimiter.
unfoldable pub check_account_limit :
    String → ℕ → RateLimiterManager → (Bool × ℕ) × RateLimiterManager
unfolding new_token_bucket allow
check_account_limit account_id now m =
    if ltb 0 m.per_account_rpm && not (account_id == "")
    then keep_limiter account_id
        (allow now (or_new m.per_account_rpm now (get m.account_limiters account_id))) m
    else ((true, 0), m)

abbrev after_global :
    (Bool × ℕ) × TokenBucket → String → ℕ → RateLimiterManager → (Bool × ℕ) × RateLimiterManager
after_global ((true, _), b) account_id now m =
    check_account_limit account_id now (record m { global_limiter = some b })
after_global ((false, retry_after), b) account_id now m =
    ((false, retry_after), record m { global_limiter = some b })

abbrev check_with :
    Option TokenBucket → String → ℕ → RateLimiterManager → (Bool × ℕ) × RateLimiterManager
check_with none account_id now m = check_account_limit account_id now m
check_with (some b) account_id now m = after_global (allow now b) account_id now m

-- CheckRateLimit
unfoldable pub check_rate_limit : String → ℕ → RateLimiterManager → (Bool × ℕ) × RateLimiterManager
unfolding check_account_limit
check_rate_limit account_id now m = check_with m.global_limiter account_id now m
