-- ===== src/Instance/Supervisor/Reachable.antt =====
-- The supervisor from its start, under sequences of whole calls: each ends before the next begins, with
-- whatever its surroundings do. Spawn, Stop and tryAdopt release the lock in between; calls that
-- run into one another there are not sequences of this kind.
use copilot_pool_gateway.Base.{
  ℕ, ◌≤◌, String, ◌≡◌, refl, subst, Bool, true, false, ◌||◌, List, [], ◌∷◌, Option, arith,
  if◌then◌else◌, eqb, ltb,
}
use copilot_pool_gateway.Store.Disk.{Disk}
use copilot_pool_gateway.Store.Account.{Account}
use copilot_pool_gateway.Instance.Ports.{Outcome, ok, err, invalid_port_range, new_port_pool}
use copilot_pool_gateway.Instance.Supervisor.{
  Supervisor, mark_crashed, new_supervisor, resolve_ports, with_range, pool_of,
}
use copilot_pool_gateway.Instance.Supervisor.Invariant.{
  IsConsistent, stop-IsConsistent, mark_crashed-IsConsistent,
}
use copilot_pool_gateway.Instance.Supervisor.Stop.{
  Exit, stop, remove_and_cleanup, stop_all, ids, shutdown,
}
use copilot_pool_gateway.Instance.Supervisor.Spawn.{Launch, spawn, restart}
use copilot_pool_gateway.Instance.Supervisor.Spawn.Consistent.{
  same_table-IsConsistent, spawn-IsConsistent, restart-IsConsistent,
}
use copilot_pool_gateway.Instance.Supervisor.Recover.{
  Host, recover_from_store, migrate_legacy_accounts, try_adopt,
}
use copilot_pool_gateway.Instance.Supervisor.Recover.Consistent.{
  try_adopt-IsConsistent, recover_from_store-IsConsistent, migrate_legacy_accounts-IsConsistent,
}
use copilot_pool_gateway.Instance.Supervisor.Health.{run_health_pass}
use copilot_pool_gateway.Instance.Supervisor.Health.Consistent.{run_health_pass-IsConsistent}

-- One call; `edit_accounts` is the rest of the program writing the account file.
pub data Call : Type 0 where
  spawn_call : Launch → String → String → ℕ → Call
  stop_call : Exit → String → Call
  restart_call : Exit → Launch → String → String → Call
  remove_call : Exit → Bool → String → Call
  child_exits : String → Option String → Call
  adopt_call : Host → Account → Call
  recover_call migrate_call health_call : Host → Call
  shutdown_call : (String → Exit) → Call
  edit_accounts : Disk Account → Call

unfoldable pub step : Call → Supervisor → Supervisor
unfolding spawn stop restart remove_and_cleanup mark_crashed try_adopt recover_from_store
    migrate_legacy_accounts run_health_pass shutdown
step (spawn_call l id token preferred) s = (spawn l id token preferred s).1
step (stop_call outcome id) s = (stop outcome id s).1
step (restart_call outcome l id token) s = (restart outcome l id token s).1
step (remove_call outcome removable id) s = (remove_and_cleanup outcome removable id s).1
step (child_exits id cause) s = mark_crashed id cause s
step (adopt_call h a) s = (try_adopt h a s).1
step (recover_call h) s = recover_from_store h s
step (migrate_call h) s = migrate_legacy_accounts h s
step (health_call h) s = run_health_pass h s
step (shutdown_call outcome) s = shutdown outcome s
step (edit_accounts disk) s = record s { disk = disk }

pub run : List Call → Supervisor → Supervisor
unfolding step
run [] s = s
run (c ∷ rest) s = run rest (step c s)

stop_all-IsConsistent :
    (outcome : String → Exit) (list : List String) (s : Supervisor)
    → IsConsistent s
    → IsConsistent (stop_all outcome list s)
unfolding stop_all
stop_all-IsConsistent outcome [] s c = c
stop_all-IsConsistent outcome (id ∷ rest) s c =
    stop_all-IsConsistent outcome rest _ (stop-IsConsistent (outcome id) id s c)

closed-IsConsistent :
    (s : Supervisor) (b : Bool) → IsConsistent s → IsConsistent (record s { closed = b })
closed-IsConsistent s b c = same_table-IsConsistent s _ refl refl c

remove_and_cleanup-IsConsistent :
    (outcome : Exit) (removable : Bool) (id : String) (s : Supervisor)
    → IsConsistent s
    → IsConsistent (remove_and_cleanup outcome removable id s).1
unfolding remove_and_cleanup
remove_and_cleanup-IsConsistent outcome true id s c =
    same_table-IsConsistent _ _ refl refl (stop-IsConsistent outcome id s c)
remove_and_cleanup-IsConsistent outcome false id s c = stop-IsConsistent outcome id s c

pub step-IsConsistent : (c : Call) (s : Supervisor) → IsConsistent s → IsConsistent (step c s)
unfolding step shutdown
step-IsConsistent (spawn_call l id token preferred) s c =
    spawn-IsConsistent l id token preferred s c
step-IsConsistent (stop_call outcome id) s c = stop-IsConsistent outcome id s c
step-IsConsistent (restart_call outcome l id token) s c =
    restart-IsConsistent outcome l id token s c
step-IsConsistent (remove_call outcome removable id) s c =
    remove_and_cleanup-IsConsistent outcome removable id s c
step-IsConsistent (child_exits id cause) s c = mark_crashed-IsConsistent id cause s c
step-IsConsistent (adopt_call h a) s c = try_adopt-IsConsistent h a s c
step-IsConsistent (recover_call h) s c = recover_from_store-IsConsistent h s c
step-IsConsistent (migrate_call h) s c = migrate_legacy_accounts-IsConsistent h s c
step-IsConsistent (health_call h) s c = run_health_pass-IsConsistent h s c
step-IsConsistent (shutdown_call outcome) s c =
    stop_all-IsConsistent outcome (ids s.workers) _ (closed-IsConsistent s true c)
step-IsConsistent (edit_accounts disk) s c = same_table-IsConsistent s _ refl refl c

calls-IsConsistent :
    (calls : List Call) (s : Supervisor) → IsConsistent s → IsConsistent (run calls s)
unfolding run
calls-IsConsistent [] s c = c
calls-IsConsistent (x ∷ rest) s c = calls-IsConsistent rest _ (step-IsConsistent x s c)

abbrev empty_supervisor : String → ℕ → ℕ → Disk Account → Supervisor
empty_supervisor root start end disk = record {
  workers_root = root;
  workers = [];
  ports = record { start = start; end = end; allocated = λ _. false };
  closed = false;
  disk = disk;
  homes = [];
}

empty-IsConsistent :
    (root : String) (start end : ℕ) (disk : Disk Account)
    → start ≤ end
    → IsConsistent (empty_supervisor root start end disk)
empty-IsConsistent root start end disk proper = record {
  distinct = tt;
  apart = tt;
  named = tt;
  proper = proper;
  owned = λ p. refl;
  above = λ p h. absurd (ground arith);
  below = λ p h. absurd (ground arith);
}

range-IsConsistent :
    (root : String) (start end : ℕ) (disk : Disk Account) (s : Supervisor) (b : Bool)
    → (eqb start 0 || ltb end start) ≡ b
    → with_range root disk
        (ok (start, end))
        (if b then err invalid_port_range else ok (empty_supervisor root start end disk).ports)
      ≡ ok s
    → IsConsistent s
range-IsConsistent root start end disk s true t e = absurd (ground arith)
range-IsConsistent root start end disk s false t e =
    let same : empty_supervisor root start end disk ≡ s = ground arith in
    subst IsConsistent same (empty-IsConsistent root start end disk (ground arith))

pool-IsConsistent :
    (root : String) (disk : Disk Account) (s : Supervisor) (r : Outcome (ℕ × ℕ))
    → with_range root disk r (pool_of r) ≡ ok s
    → IsConsistent s
unfolding new_port_pool
pool-IsConsistent root disk s (err e) h = absurd (ground arith)
pool-IsConsistent root disk s (ok (start, end)) h =
    range-IsConsistent root start end disk s _ refl h

pub new_supervisor-IsConsistent :
    (root : String) (start end : ℕ) (disk : Disk Account) (s : Supervisor)
    → new_supervisor root start end disk ≡ ok s
    → IsConsistent s
unfolding new_supervisor
new_supervisor-IsConsistent root start end disk s e =
    pool-IsConsistent root disk s (resolve_ports start end) e

-- From a new supervisor, where the calls run one after another, each whole before the next begins,
-- and whatever the processes, ports and account file do: after any number of calls, the allocated ports are exactly those of the workers, no two workers have the same
-- port, every port lies in the range, and each worker's entry names its account.
pub run-IsConsistent :
    (root : String) (start end : ℕ) (disk : Disk Account) (s : Supervisor) (calls : List Call)
    → new_supervisor root start end disk ≡ ok s
    → IsConsistent (run calls s)
run-IsConsistent root start end disk s calls e =
    calls-IsConsistent calls s (new_supervisor-IsConsistent root start end disk s e)
