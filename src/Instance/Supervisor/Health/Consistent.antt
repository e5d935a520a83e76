-- ===== src/Instance/Supervisor/Health/Consistent.antt =====
-- A health pass keeps the invariant.
use Prim.Native.String.{◌++◌}
use copilot_pool_gateway.Base.{String, not, ◌||◌, List, [], ◌∷◌, Option, none, some, ◌==◌, trim}
use copilot_pool_gateway.Store.Disk.{Result}
use copilot_pool_gateway.Store.Account.{Account}
use copilot_pool_gateway.Instance.Supervisor.{Supervisor, WorkerEntry, all}
use copilot_pool_gateway.Instance.Supervisor.Invariant.{
  IsConsistent, stop-IsConsistent, mark_crashed-IsConsistent,
}
use copilot_pool_gateway.Instance.Supervisor.Stop.{exits}
use copilot_pool_gateway.Instance.Supervisor.Spawn.Consistent.{restart-IsConsistent}
use copilot_pool_gateway.Instance.Supervisor.Recover.{Host}
use copilot_pool_gateway.Instance.Supervisor.Recover.Consistent.{or-IsConsistent}
use copilot_pool_gateway.Instance.Supervisor.Health.{
  in_transition, has_failed, check_worker, check_account, check_entry, check_entries,
  run_health_pass,
}

check_worker-IsConsistent :
    (h : Host) (token : String) (e : WorkerEntry) (s : Supervisor)
    → IsConsistent s
    → IsConsistent (check_worker h token e s)
unfolding check_worker
check_worker-IsConsistent h token e s c = or-IsConsistent (in_transition e.status) _ _ c (
    or-IsConsistent (has_failed e.status || not (h.alive e.pid)) _ _
      (restart-IsConsistent exits (h.launch e.account_id) e.account_id token s c)
      (or-IsConsistent (h.answers_on e.port) _ _ c (
        restart-IsConsistent exits (h.launch e.account_id) e.account_id token _ (
          mark_crashed-IsConsistent e.account_id
            (some ("health probe failed: " ++ h.probe_error e.port)) s c))))

check_account-IsConsistent :
    (r : Result (Option Account)) (h : Host) (e : WorkerEntry) (s : Supervisor)
    → IsConsistent s
    → IsConsistent (check_account r h e s)
unfolding check_account
check_account-IsConsistent (Result.err failure) h e s c = c
check_account-IsConsistent (Result.ok none) h e s c = stop-IsConsistent exits e.account_id s c
check_account-IsConsistent (Result.ok (some a)) h e s c =
    or-IsConsistent (not a.enabled || not a.worker_managed) _ _
      (stop-IsConsistent exits e.account_id s c)
      (or-IsConsistent (trim a.github_token == "") _ _ c
        (check_worker-IsConsistent h (trim a.github_token) e s c))

check_entries-IsConsistent :
    (h : Host) (list : List WorkerEntry) (s : Supervisor)
    → IsConsistent s
    → IsConsistent (check_entries h list s)
unfolding check_entries check_entry
check_entries-IsConsistent h [] s c = c
check_entries-IsConsistent h (e ∷ rest) s c =
    check_entries-IsConsistent h rest _ (check_account-IsConsistent _ h e s c)

pub run_health_pass-IsConsistent :
    (h : Host) (s : Supervisor) → IsConsistent s → IsConsistent (run_health_pass h s)
unfolding run_health_pass
run_health_pass-IsConsistent h s c = check_entries-IsConsistent h (all s) s c
