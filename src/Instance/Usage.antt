-- ===== src/Instance/Usage.antt =====
-- instance/usage.go: each account's requests of the last hour. Times are numbers of nanoseconds. A
-- lookup and the change that follows it are one step.
pub mod Window
use copilot_pool_gateway.Base.{
  ℕ, ◌+◌, String, Bool, true, false, List, [], ◌∷◌, ◌++◌, Option, none, some, if◌then◌else◌, ltb,
  length, keep,
}
use copilot_pool_gateway.Base.StringMap.{StringMap, get, put}

-- usageWindowDuration
abbrev pub usage_window_duration : ℕ
usage_window_duration = 3600000000000

pub record UsageRecord : Type 0 where
  pub at : ℕ
  pub failed : Bool
  pub is_429 : Bool

-- AccountUsage; `last_429` is the zero time where it is `none`.
pub record AccountUsage : Type 0 where
  pub records : List UsageRecord
  pub last_429 : Option ℕ

pub record AccountUsageSnapshot : Type 0 where
  pub total_requests : ℕ
  pub failed_requests : ℕ
  pub last_429_at : Option ℕ
  pub window_seconds : ℕ

abbrev pub UsageMap : Type 0
UsageMap = StringMap AccountUsage

-- `r.At.Before(now.Add(-usageWindowDuration))`
abbrev pub outside : ℕ → UsageRecord → Bool
outside now r = ltb (r.at + usage_window_duration) now

-- trimLocked: the records before the first one that lies in the window go.
unfoldable pub trim_records : ℕ → List UsageRecord → List UsageRecord
trim_records now [] = []
trim_records now (r ∷ rest) =
    let trimmed = trim_records now rest in if outside now r then trimmed else r ∷ rest

abbrev or_new : Option AccountUsage → AccountUsage
or_new none = record { records = []; last_429 = none }
or_new (some u) = u

-- The body of RecordRequest.
unfoldable pub record_usage : ℕ → Bool → Bool → AccountUsage → AccountUsage
unfolding trim_records
record_usage now failed is_429 u = record {
  records =
      trim_records now (u.records ++ (record { at = now; failed = failed; is_429 = is_429 } ∷ []));
  last_429 = if is_429 then some now else u.last_429;
}

-- RecordRequest, with getOrCreateUsage
unfoldable pub record_request : String → Bool → Bool → ℕ → UsageMap → UsageMap
unfolding record_usage
record_request account_id failed is_429 now m =
    put m account_id (record_usage now failed is_429 (or_new (get m account_id)))

abbrev pub trimmed_usage : ℕ → AccountUsage → AccountUsage
trimmed_usage now u = record u { records = trim_records now u.records }

abbrev snapshot_of : AccountUsage → AccountUsageSnapshot
snapshot_of u = record {
  total_requests = length u.records;
  failed_requests = length (keep (λ r. r.failed) u.records);
  last_429_at = u.last_429;
  window_seconds = 3600;
}

abbrev read_snapshot : Option AccountUsage → String → ℕ → UsageMap → AccountUsageSnapshot × UsageMap
read_snapshot none id now m = (
  record { total_requests = 0; failed_requests = 0; last_429_at = none; window_seconds = 3600 },
  m,
)
read_snapshot (some u) id now m =
    (snapshot_of (trimmed_usage now u), put m id (trimmed_usage now u))

-- GetUsageSnapshot
unfoldable pub get_usage_snapshot : String → ℕ → UsageMap → AccountUsageSnapshot × UsageMap
unfolding trim_records
get_usage_snapshot id now m = read_snapshot (get m id) id now m

-- GetAllUsageSnapshots
unfoldable pub get_all_usage_snapshots : ℕ → UsageMap → StringMap AccountUsageSnapshot × UsageMap
unfolding trim_records
get_all_usage_snapshots now [] = ([], [])
get_all_usage_snapshots now ((id, u) ∷ rest) =
    let (snapshots, m) = get_all_usage_snapshots now rest in
    ((id, snapshot_of (trimmed_usage now u)) ∷ snapshots, (id, trimmed_usage now u) ∷ m)

abbrev pub read_count : Option AccountUsage → String → ℕ → UsageMap → ℕ × UsageMap
read_count none id now m = (0, m)
read_count (some u) id now m = (length (trim_records now u.records), put m id (trimmed_usage now u))

-- GetWindowRequestCount
unfoldable pub get_window_request_count : String → ℕ → UsageMap → ℕ × UsageMap
unfolding trim_records
get_window_request_count id now m = read_count (get m id) id now m

abbrev pub last_of : Option AccountUsage → Option ℕ
last_of none = none
last_of (some u) = u.last_429

-- GetLast429Time
unfoldable pub get_last_429_time : String → UsageMap → Option ℕ
get_last_429_time id m = last_of (get m id)
