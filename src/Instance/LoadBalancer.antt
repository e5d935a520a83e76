-- ===== src/Instance/LoadBalancer.antt =====
-- instance/load_balancer.go: SelectAccount and its strategies. One call reads the clock once here.
-- `running` is whether the registry has a running instance of an account. Scores are exact, in
-- units of one request per `penalty_duration`; the code computes them in floating point.
pub mod Choice
pub mod LeastUsed
pub mod Highest
pub mod Smart
use copilot_pool_gateway.Base.{
  ℕ, ◌+◌, ◌-◌, ◌*◌, ◌%◌, ℤ, ltb_ℤ, String, Bool, true, false, not, ◌&&◌, List, [], ◌∷◌, Option,
  none, some, ◌==◌, if◌then◌else◌, ltb, length, keep, get_or,
}
use copilot_pool_gateway.Store.Disk.{Result}
use copilot_pool_gateway.Store.Account.{Account}
use copilot_pool_gateway.Store.Account.Lookup.{get_enabled_accounts}
use copilot_pool_gateway.Store.Disk.{Disk}
use copilot_pool_gateway.Instance.Usage.{UsageMap, get_window_request_count, get_last_429_time}

-- penaltyDuration, maxPenalty
abbrev pub penalty_duration : ℕ
penalty_duration = 300000000000

abbrev pub max_penalty : ℕ
max_penalty = 1000

pub record Balancer : Type 0 where
  pub usage : UsageMap
  -- `rrIndex`, below 2 ^ 63
  pub rr_index : ℕ

-- selectRoundRobin of a list that begins with `first`
unfoldable pub select_round_robin : Account → List Account → Balancer → Account × Balancer
select_round_robin first rest b = (
  get_or (first ∷ rest) (b.rr_index % length (first ∷ rest)) first,
  record b { rr_index = b.rr_index + 1 },
)

-- selectByPriority: the best so far, and the accounts still to see.
unfoldable pub select_by_priority : Account → List Account → Account
select_by_priority best [] = best
select_by_priority best (a ∷ rest) =
    select_by_priority (if ltb_ℤ best.priority a.priority then a else best) rest

-- selectLeastUsed: the best so far with its count.
unfoldable pub least_used_from : ℕ → Account → ℕ → List Account → UsageMap → Account × UsageMap
unfolding get_window_request_count
least_used_from now best best_count [] m = (best, m)
least_used_from now best best_count (a ∷ rest) m =
    let (count, m') = get_window_request_count a.id now m in
    if ltb count best_count
    then least_used_from now a count rest m'
    else least_used_from now best best_count rest m'

unfoldable pub select_least_used : ℕ → Account → List Account → UsageMap → Account × UsageMap
unfolding least_used_from
select_least_used now first rest m =
    let (count, m') = get_window_request_count first.id now m in
    least_used_from now first count rest m'

-- The penalty, `maxPenalty * (1 - elapsed / penaltyDuration)`.
unfoldable pub penalty_of : ℕ → Option ℕ → ℕ
penalty_of now none = 0
penalty_of now (some last) =
    if ltb (now - last) penalty_duration then max_penalty * (penalty_duration - (now - last)) else 0

unfoldable pub score : ℕ → Account → UsageMap → ℕ × UsageMap
unfolding get_window_request_count penalty_of
score now a m =
    let (count, m') = get_window_request_count a.id now m in
    (count * penalty_duration + penalty_of now (get_last_429_time a.id m'), m')

-- The loop of selectSmart; the first score is below `math.MaxFloat64`.
unfoldable pub smart_from : ℕ → Account → ℕ → List Account → UsageMap → Account × UsageMap
unfolding score
smart_from now best best_score [] m = (best, m)
smart_from now best best_score (a ∷ rest) m =
    let (points, m') = score now a m in
    if ltb points best_score
    then smart_from now a points rest m'
    else smart_from now best best_score rest m'

unfoldable pub select_smart : ℕ → Account → List Account → UsageMap → Account × UsageMap
unfolding smart_from
select_smart now first rest m =
    let (points, m') = score now first m in smart_from now first points rest m'

abbrev pub is_available : (String → Bool) → (String → Bool) → Account → Bool
is_available exclude running a = not (exclude a.id) && running a.id

abbrev with_usage : Balancer → Account × UsageMap → Account × Balancer
with_usage b (a, m) = (a, record b { usage = m })

-- The switch over the strategies.
unfoldable pub choose : String → ℕ → Account → List Account → Balancer → Account × Balancer
unfolding select_by_priority select_least_used select_smart select_round_robin
choose strategy now first rest b =
    if strategy == "priority"
    then (select_by_priority first rest, b)
    else if strategy == "least-used"
    then with_usage b (select_least_used now first rest b.usage)
    else if strategy == "smart"
    then with_usage b (select_smart now first rest b.usage)
    else select_round_robin first rest b

abbrev choose_among : String → ℕ → List Account → Balancer → Result (Option Account) × Balancer
choose_among strategy now [] b = (Result.ok none, b)
choose_among strategy now (first ∷ rest) b =
    let (a, b') = choose strategy now first rest b in (Result.ok (some a), b')

unfoldable pub select_from :
    Result (List Account)
    → String
    → (String → Bool)
    → (String → Bool)
    → ℕ
    → Balancer
    → Result (Option Account) × Balancer
unfolding choose
select_from (Result.err e) strategy exclude running now b = (Result.err e, b)
select_from (Result.ok accounts) strategy exclude running now b =
    choose_among strategy now (keep (is_available exclude running) accounts) b

-- SelectAccount
unfoldable pub select_account :
    String
    → (String → Bool)
    → (String → Bool)
    → ℕ
    → Disk Account
    → Balancer
    → Result (Option Account) × Balancer
unfolding select_from
select_account strategy exclude running now disk b =
    select_from (get_enabled_accounts disk).0 strategy exclude running now b
