-- ===== src/Instance/Supervisor/Stop.antt =====
-- Stop, RemoveAndCleanup and Shutdown. The operating system decides whether the child exits on
-- SIGTERM or SIGKILL, or outlives the caller's context.
use copilot_pool_gateway.Base.{
  String, Bool, true, false, List, [], ◌∷◌, Option, none, some, if◌then◌else◌,
}
use copilot_pool_gateway.Base.StringMap.{StringMap, get, put, remove}
use copilot_pool_gateway.Store.Account.Edit.{clear_account_worker}
use copilot_pool_gateway.Instance.Ports.{Outcome, ok, err, unknown_account, cancelled, release}
use copilot_pool_gateway.Instance.Supervisor.{Supervisor, Worker, stopping, with_status}

pub data Exit : Type 0 where
  -- the child exits, on the first signal or on the second
  exits : Exit
  -- the context ends while the child is still alive
  outlives : Exit

-- The second locked region of Stop, the port's release and the callback on the account file, whose
-- error is only logged.
unfoldable pub tear_down : String → Worker → Supervisor → Supervisor
tear_down id w s = record s {
  workers = remove s.workers id;
  ports = release w.entry.port s.ports;
  disk = (clear_account_worker id s.disk).1;
}

abbrev finish_stop : Exit → String → Worker → Supervisor → Outcome (Unit {0}) × Supervisor
finish_stop exits id w s = (ok tt, tear_down id w s)
finish_stop outlives id w s = (err cancelled, s)

-- Stop of a worker that is there.
unfoldable pub stop_worker :
    Exit → String → Option Worker → Supervisor → Outcome (Unit {0}) × Supervisor
unfolding tear_down
stop_worker outcome id none s = (err unknown_account, s)
stop_worker outcome id (some w) s =
    finish_stop outcome id w (record s { workers = put s.workers id (with_status stopping w) })

-- Stop
unfoldable pub stop : Exit → String → Supervisor → Outcome (Unit {0}) × Supervisor
unfolding stop_worker
stop outcome id s = stop_worker outcome id (get s.workers id) s

-- RemoveAndCleanup: the error of Stop is dropped; `removable` is whether `os.RemoveAll` succeeds.
unfoldable pub remove_and_cleanup : Exit → Bool → String → Supervisor → Bool × Supervisor
unfolding stop
remove_and_cleanup outcome removable id s =
    let s' = (stop outcome id s).1 in
    if removable then (true, record s' { homes = remove s'.homes id }) else (false, s')

unfoldable pub ids : StringMap Worker → List String
ids [] = []
ids ((id, w) ∷ rest) = id ∷ ids rest

-- Stops the listed workers, dropping each error.
unfoldable pub stop_all : (String → Exit) → List String → Supervisor → Supervisor
unfolding stop
stop_all outcome [] s = s
stop_all outcome (id ∷ rest) s = stop_all outcome rest (stop (outcome id) id s).1

-- Shutdown
unfoldable pub shutdown : (String → Exit) → Supervisor → Supervisor
unfolding stop_all ids
shutdown outcome s = stop_all outcome (ids s.workers) (record s { closed = true })
