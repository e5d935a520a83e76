-- ===== src/Instance/Supervisor.antt =====
-- instance/worker_supervisor.go: the supervisor's state and the operations that hold its lock for
-- their whole length. Times are numbers. The account file and the home directories of the workers
-- are part of the state, because the callbacks and the recovery read and write them.
pub mod Stop
pub mod Spawn
pub mod Recover
pub mod Health
pub mod Table
pub mod Invariant
pub mod Reachable
pub mod Closed
use Prim.Native.String.{◌++◌}
use copilot_pool_gateway.Base.{
  ℕ, String, Bool, true, false, List, [], ◌∷◌, Option, none, some, if◌then◌else◌, ltb, leb, eqb,
  decimal,
}
use copilot_pool_gateway.Base.StringMap.{StringMap, get, put}
use copilot_pool_gateway.Store.Disk.{Disk}
use copilot_pool_gateway.Store.Account.{Account}
use copilot_pool_gateway.Instance.Ports.{
  PortPool, Outcome, ok, err, SupervisorError, invalid_port_range, new_port_pool,
}

pub data WorkerStatus : Type 0 where
  starting ready crashed stopping stopped start_timeout : WorkerStatus

pub record WorkerEntry : Type 0 where
  pub account_id : String
  pub port : ℕ
  pub home : String
  pub pid : ℕ
  pub started_at : ℕ
  pub status : WorkerStatus
  pub last_error : String
  pub worker_url : String

-- workerState; the command, its log file and its channel are the operating system's.
pub record Worker : Type 0 where
  pub entry : WorkerEntry
  pub adopted : Bool

pub record Supervisor : Type 0 where
  pub workers_root : String
  pub workers : StringMap Worker
  pub ports : PortPool
  pub closed : Bool
  -- the account file, and the `github_token` of each home directory
  pub disk : Disk Account
  pub homes : StringMap String

-- The port range of resolveDefaults.
unfoldable pub resolve_ports : ℕ → ℕ → Outcome (ℕ × ℕ)
resolve_ports start end =
    if eqb start 0
    then if eqb end 0 then ok (9100, 9199) else err invalid_port_range
    else if ltb end start
    then err invalid_port_range
    else ok (start, end)

abbrev with_range : String → Disk Account → Outcome (ℕ × ℕ) → Outcome PortPool → Outcome Supervisor
with_range root disk (err e) pool = err e
with_range root disk (ok range) (err e) = err e
with_range root disk (ok range) (ok pool) = ok (record {
  workers_root = root;
  workers = [];
  ports = pool;
  closed = false;
  disk = disk;
  homes = [];
})

abbrev pool_of : Outcome (ℕ × ℕ) → Outcome PortPool
pool_of (err e) = err e
pool_of (ok (start, end)) = new_port_pool start end

-- NewSupervisor
unfoldable pub new_supervisor : String → ℕ → ℕ → Disk Account → Outcome Supervisor
unfolding resolve_ports
new_supervisor root start end disk =
    with_range root disk (resolve_ports start end) (pool_of (resolve_ports start end))

-- WorkerURLFor
unfoldable pub worker_url_for : ℕ → String
worker_url_for port = "http://127.0.0.1:" ++ decimal port

-- `filepath.Join(WorkersRoot, accountID)`, for a clean root and an ID that is a plain file name.
unfoldable pub home_for : Supervisor → String → String
home_for s account_id = s.workers_root ++ ("/" ++ account_id)

abbrev pub with_status : WorkerStatus → Worker → Worker
with_status status w = record w { entry = record (w.entry) { status = status } }

abbrev or_kept : String → Option String → String
or_kept old none = old
or_kept old (some cause) = cause

-- The last error changes only where there is a cause.
abbrev pub with_failure : WorkerStatus → Option String → Worker → Worker
with_failure status cause w = record w {
  entry = record (w.entry) { status = status; last_error = or_kept w.entry.last_error cause };
}

abbrev pub set_worker : String → (Worker → Worker) → Option Worker → Supervisor → Supervisor
set_worker id f none s = s
set_worker id f (some w) s = record s { workers = put s.workers id (f w) }

-- markStartTimeout
unfoldable pub mark_start_timeout : String → Option String → Supervisor → Supervisor
mark_start_timeout id cause s =
    set_worker id (with_failure start_timeout cause) (get s.workers id) s

-- A worker that is being stopped is not marked.
abbrev pub crash : Option String → Worker → Worker
crash cause w = elim w.entry.status [ stopping ↦ w | _ ↦ with_failure crashed cause w ]

-- markCrashed, which the reaper calls when the child has exited.
unfoldable pub mark_crashed : String → Option String → Supervisor → Supervisor
mark_crashed id cause s = set_worker id (crash cause) (get s.workers id) s

abbrev entry_of : Option Worker → Option WorkerEntry
entry_of none = none
entry_of (some w) = some w.entry

-- Status
unfoldable pub status : String → Supervisor → Option WorkerEntry
status id s = entry_of (get s.workers id)

entries : StringMap Worker → List WorkerEntry
entries [] = []
entries ((id, w) ∷ rest) = w.entry ∷ entries rest

-- All
unfoldable pub all : Supervisor → List WorkerEntry
unfolding entries
all s = entries s.workers
