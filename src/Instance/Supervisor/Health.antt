-- ===== src/Instance/Supervisor/Health.antt =====
-- runHealthPass: one pass over the snapshot that All returns. HealthLoop runs a pass at each tick.
pub mod Consistent
use Prim.Native.String.{◌++◌}
use copilot_pool_gateway.Base.{
  ℕ, String, Bool, true, false, not, ◌||◌, List, [], ◌∷◌, Option, none, some, ◌==◌, if◌then◌else◌,
  trim,
}
use copilot_pool_gateway.Store.Disk.{Result}
use copilot_pool_gateway.Store.Account.{Account}
use copilot_pool_gateway.Store.Account.Lookup.{get_account}
use copilot_pool_gateway.Instance.Supervisor.{
  Supervisor, WorkerEntry, WorkerStatus, starting, stopping, crashed, start_timeout, mark_crashed,
  all,
}
use copilot_pool_gateway.Instance.Supervisor.Stop.{exits, stop}
use copilot_pool_gateway.Instance.Supervisor.Spawn.{restart}
use copilot_pool_gateway.Instance.Supervisor.Recover.{Host}

abbrev in_transition : WorkerStatus → Bool
in_transition status = elim status [ starting ↦ true | stopping ↦ true | _ ↦ false ]

abbrev has_failed : WorkerStatus → Bool
has_failed status = elim status [ crashed ↦ true | start_timeout ↦ true | _ ↦ false ]

-- The context of this stop has no end.
abbrev restart_now : Host → String → String → Supervisor → Supervisor
restart_now h id token s = (restart exits (h.launch id) id token s).1

-- A worker of an account that still wants it.
unfoldable pub check_worker : Host → String → WorkerEntry → Supervisor → Supervisor
unfolding restart mark_crashed
check_worker h token e s =
    if in_transition e.status
    then s
    else if has_failed e.status || not (h.alive e.pid)
    then restart_now h e.account_id token s
    else if h.answers_on e.port
    then s
    else restart_now h e.account_id token
        (mark_crashed e.account_id (some ("health probe failed: " ++ h.probe_error e.port)) s)

abbrev stop_now : String → Supervisor → Supervisor
stop_now id s = (stop exits id s).1

-- With what GetAccount returns.
unfoldable pub check_account :
    Result (Option Account) → Host → WorkerEntry → Supervisor → Supervisor
unfolding check_worker stop
check_account (Result.err failure) h e s = s
check_account (Result.ok none) h e s = stop_now e.account_id s
check_account (Result.ok (some a)) h e s =
    if not a.enabled || not a.worker_managed
    then stop_now e.account_id s
    else if trim a.github_token == ""
    then s
    else check_worker h (trim a.github_token) e s

-- The body of the loop.
unfoldable pub check_entry : Host → WorkerEntry → Supervisor → Supervisor
unfolding check_account
check_entry h e s = check_account (get_account e.account_id s.disk).0 h e s

pub check_entries : Host → List WorkerEntry → Supervisor → Supervisor
unfolding check_entry
check_entries h [] s = s
check_entries h (e ∷ rest) s = check_entries h rest (check_entry h e s)

-- runHealthPass
unfoldable pub run_health_pass : Host → Supervisor → Supervisor
unfolding check_entries all
run_health_pass h s = check_entries h (all s) s
