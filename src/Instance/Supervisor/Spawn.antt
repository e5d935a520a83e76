-- ===== src/Instance/Supervisor/Spawn.antt =====
-- Spawn and Restart. `Launch` is what the operating system and the child do during one call: the
-- files that are written, the ports that can be bound, whether the child starts, and how its
-- readiness probe ends. Between the check for a live worker and its registration the code gives up
-- its lock; here nothing else happens in between.
pub mod Consistent
pub mod Outcomes
pub mod Success
use copilot_pool_gateway.Base.{
  ℕ, String, Bool, true, false, Option, none, some, ◌==◌, if◌then◌else◌, trim,
}
use copilot_pool_gateway.Base.StringMap.{StringMap, get, put}
use copilot_pool_gateway.Store.Account.Edit.{update_account_worker}
use copilot_pool_gateway.Instance.Ports.{
  PortPool, Outcome, ok, err, SupervisorError, empty_account, closed, already_live, unknown_account,
  setup_failed, start_failed, probe_failed, ready_timeout, release, select_port,
}
use copilot_pool_gateway.Instance.Supervisor.{
  Supervisor, Worker, WorkerEntry, starting, ready, stopped, with_status, home_for, worker_url_for,
  mark_start_timeout, set_worker,
}
use copilot_pool_gateway.Instance.Supervisor.Stop.{Exit, exits, stop}

-- The home directory, the token file and the log file, up to the first failure.
pub data Files : Type 0 where
  no_home no_token no_log opened : Files

pub data Probe : Type 0 where
  answers : Probe
  -- the deadline passed, or another error, each with its text
  times_out : String → Probe
  fails : String → Probe

pub record Launch : Type 0 where
  pub files : Files
  pub bindable : ℕ → Bool
  -- the child's process ID, `none` where it does not start
  pub pid : Option ℕ
  pub started_at : ℕ
  pub probe : Probe

abbrev pub new_entry : Supervisor → String → ℕ → ℕ → ℕ → WorkerEntry
new_entry s id port pid now = record {
  account_id = id;
  port = port;
  home = home_for s id;
  pid = pid;
  started_at = now;
  status = starting;
  last_error = "";
  worker_url = worker_url_for port;
}

-- PersistOnReady, as main.go sets it; its error is only logged.
unfoldable pub persist_on_ready : WorkerEntry → Supervisor → Supervisor
persist_on_ready e s = record s {
  disk = (update_account_worker e.account_id e.worker_url e.home e.port e.pid s.disk).1;
}

-- snapshotLocked of an unknown account
abbrev empty_entry : WorkerEntry
empty_entry = record {
  account_id = "";
  port = 0;
  home = "";
  pid = 0;
  started_at = 0;
  status = stopped;
  last_error = "";
  worker_url = "";
}

-- The status becomes ready, and the snapshot is persisted.
abbrev finish_ready : String → Option Worker → Supervisor → Outcome WorkerEntry × Supervisor
finish_ready id none s = (ok empty_entry, persist_on_ready empty_entry s)
finish_ready id (some w) s =
    let w' = with_status ready w in
    (ok w'.entry, persist_on_ready w'.entry (record s { workers = put s.workers id w' }))

-- The failed child is stopped under a context that does not end.
abbrev give_up : String → String → SupervisorError → Supervisor → Outcome WorkerEntry × Supervisor
give_up id cause e s = (err e, (stop exits id (mark_start_timeout id (some cause) s)).1)

unfoldable pub await_ready : Probe → String → Supervisor → Outcome WorkerEntry × Supervisor
unfolding persist_on_ready
await_ready answers id s = finish_ready id (get s.workers id) s
await_ready (times_out cause) id s = give_up id cause ready_timeout s
await_ready (fails cause) id s = give_up id cause probe_failed s

-- From the selected port on.
unfoldable pub start_child :
    Launch → String → Supervisor → Outcome (ℕ × PortPool) → Outcome WorkerEntry × Supervisor
unfolding await_ready
start_child l id s (err e) = (err e, s)
start_child l id s (ok (port, ports)) = elim l.pid [
  | none ↦ (err start_failed, record s { ports = release port ports })
  | some pid ↦ await_ready l.probe id (record s {
    ports = ports;
    workers =
        put s.workers id (record { entry = new_entry s id port pid l.started_at; adopted = false });
  })
]

abbrev pub with_token : String → String → Supervisor → Supervisor
with_token id token s = record s { homes = put s.homes id token }

-- From the home directory on.
unfoldable pub prepare :
    Files → Launch → String → String → ℕ → Supervisor → Outcome WorkerEntry × Supervisor
unfolding start_child
prepare no_home l id token preferred s = (err setup_failed, s)
prepare no_token l id token preferred s = (err setup_failed, s)
prepare no_log l id token preferred s = (err setup_failed, with_token id token s)
prepare opened l id token preferred s =
    start_child l id (with_token id token s) (select_port l.bindable preferred s.ports)

-- The check under the lock: an account has at most one worker.
unfoldable pub spawn_unless_live :
    Option Worker → Launch → String → String → ℕ → Supervisor → Outcome WorkerEntry × Supervisor
unfolding prepare
spawn_unless_live (some w) l id token preferred s = (err already_live, s)
spawn_unless_live none l id token preferred s = prepare l.files l id token preferred s

-- spawn; Spawn is this with no preferred port.
unfoldable pub spawn : Launch → String → String → ℕ → Supervisor → Outcome WorkerEntry × Supervisor
unfolding spawn_unless_live
spawn l id token preferred s =
    if trim id == ""
    then (err empty_account, s)
    else if s.closed
    then (err closed, s)
    else spawn_unless_live (get s.workers id) l id token preferred s

abbrev pub respawn :
    Launch → String → String → Outcome (Unit {0}) × Supervisor → Outcome WorkerEntry × Supervisor
respawn l id token (ok _, s) = spawn l id token 0 s
respawn l id token (err unknown_account, s) = spawn l id token 0 s
respawn l id token (err e, s) = (err e, s)

-- Restart: an account without a worker is no error.
unfoldable pub restart :
    Exit → Launch → String → String → Supervisor → Outcome WorkerEntry × Supervisor
unfolding spawn
restart outcome l id token s = respawn l id token (stop outcome id s)
