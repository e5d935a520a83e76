-- ===== src/Examples/RoutingRuns.antt =====
-- The theorems on usage, selection and session affinity, at the two accounts.
use copilot_pool_gateway.Base.{
  pos, ltb_ℤ, All, ◌≤◌, String, ◌≡◌, refl, Bool, true, false, List, [], ◌∷◌, some, arith, ◌==◌,
  length, keep, trim, is_space,
}
use copilot_pool_gateway.Base.StringMap.{get}
use copilot_pool_gateway.Store.Disk.{Result, contents, read}
use copilot_pool_gateway.Store.Account.{Account}
use copilot_pool_gateway.Store.Account.Lookup.{get_accounts, get_enabled_accounts}
use copilot_pool_gateway.Instance.Usage.{get_window_request_count}
use copilot_pool_gateway.Instance.Usage.Window.{Request, is_counted, replay, window_count-replay}
use copilot_pool_gateway.Instance.LoadBalancer.{
  Balancer, choose, select_by_priority, select_from, select_account,
}
use copilot_pool_gateway.Instance.LoadBalancer.Choice.{
  select_account_candidate, select_account_total,
}
use copilot_pool_gateway.Handler.Affinity.{Accounts, Affinity, lookup_messages_session_affinity}
use copilot_pool_gateway.Handler.Affinity.Laws.{bind_all, length-bind_all-le}
use copilot_pool_gateway.Instance.RateLimiter.{TokenBucket, allow, refilled, wait_seconds}
use copilot_pool_gateway.Instance.LoadBalancer.{select_least_used, select_smart, score}
use copilot_pool_gateway.Instance.LoadBalancer.Highest.{select_by_priority-Highest}
use copilot_pool_gateway.Instance.LoadBalancer.Smart.{select_smart-Lowest}
use copilot_pool_gateway.Instance.LoadBalancer.LeastUsed.{select_least_used-Fewest}
use copilot_pool_gateway.Examples.Accounts.{alice, bob, two_accounts, disk}

abbrev requests : List Request
requests =
    (record { account = "a1"; at = 5; failed = false; is_429 = false })
    ∷ (record { account = "b2"; at = 9; failed = true; is_429 = true })
    ∷ (record { account = "a1"; at = 3600000000007; failed = false; is_429 = false })
    ∷ []

window_count-replay_example :
    (get_window_request_count "a1" 3600000000010 (replay requests [])).0
    ≡ length (keep (is_counted "a1" 3600000000010) requests)
window_count-replay_example =
    window_count-replay "a1" 3600000000010 0 requests
      (omega arith, (omega arith, (omega arith, omega arith)))

abbrev balancer : Balancer
balancer = record { usage = []; rr_index = 0 }

abbrev without_alice : String → Bool
without_alice id = id == "a1"

chosen :
    (select_account "priority" without_alice (λ _. true) 7 disk balancer).0 ≡ Result.ok (some bob)
unfolding select_account select_from choose select_by_priority get_enabled_accounts get_accounts
    read contents
chosen = refl

select_account_candidate_example :
    (bob.enabled ≡ true) × (without_alice bob.id ≡ false) × (true ≡ true)
select_account_candidate_example =
    select_account_candidate "priority" without_alice (λ _. true) 7 disk balancer bob chosen

readable : contents disk.file ≡ some two_accounts
unfolding contents
readable = refl

select_account_total_example :
    (a : Account) × ((select_account "smart" without_alice (λ _. true) 7 disk balancer).0
      ≡ Result.ok (some a))
select_account_total_example =
    select_account_total "smart" without_alice (λ _. true) 7 disk balancer two_accounts readable
      refl

length-bind_all-le_example :
    length (bind_all ((5, "session-1", "a1") ∷ (6, "session-2", "b2") ∷ []) []) ≤ 4096
length-bind_all-le_example =
    length-bind_all-le ((5, "session-1", "a1") ∷ (6, "session-2", "b2") ∷ [])

abbrev accounts : Accounts
accounts = record {
  is_model_blocked = λ id model. false;
  is_enabled = λ id. true;
  is_running = λ id. true;
}

abbrev sessions : Affinity
sessions = ("session-1", record { account_id = "a1"; accessed_at = 5 }) ∷ []

messages_bound :
    (lookup_messages_session_affinity accounts 9 "session-1" "gpt-5" (λ _. false) sessions).0
    ≡ some "a1"
unfolding lookup_messages_session_affinity trim is_space get
messages_bound = refl

abbrev empty_bucket : TokenBucket
empty_bucket = record { tokens = 0; max_tokens = 120000000000; refill_rate = 2; last_refill = 4 }

refused : (allow 4 empty_bucket).0 ≡ (false, 30)
unfolding allow refilled wait_seconds
refused = refl

select_least_used-Fewest_example :
    let z : Account = (select_least_used 3600000000010 alice (bob ∷ []) (replay requests [])).0 in
    All
      (λ x.
        (get_window_request_count z.id 3600000000010 (replay requests [])).0
        ≤ (get_window_request_count x.id 3600000000010 (replay requests [])).0)
      (alice ∷ bob ∷ [])
select_least_used-Fewest_example =
    select_least_used-Fewest 3600000000010 alice (bob ∷ []) (replay requests [])

select_by_priority-Highest_example :
    let z : Account = select_by_priority alice (record bob { priority = pos 5 } ∷ []) in
    All (λ x. ltb_ℤ z.priority x.priority ≡ false) (alice ∷ record bob { priority = pos 5 } ∷ [])
select_by_priority-Highest_example =
    select_by_priority-Highest alice (record bob { priority = pos 5 } ∷ [])

select_smart-Lowest_example :
    let z : Account = (select_smart 3600000000010 alice (bob ∷ []) (replay requests [])).0 in
    All
      (λ x.
        (score 3600000000010 z (replay requests [])).0
        ≤ (score 3600000000010 x (replay requests [])).0)
      (alice ∷ bob ∷ [])
select_smart-Lowest_example =
    select_smart-Lowest 3600000000010 alice (bob ∷ []) (replay requests [])
