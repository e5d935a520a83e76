-- ===== src/Instance/Supervisor/Recover.antt =====
-- RecoverFromStore, MigrateLegacyAccounts and tryAdopt. `Host` is what the machine answers during
-- one pass: the live processes, the ports whose readiness probe succeeds, the clock, and what each
-- spawn will meet.
pub mod Consistent
use copilot_pool_gateway.Base.{
  ℕ, String, Bool, true, false, not, ◌||◌, List, [], ◌∷◌, Option, none, some, ◌==◌, if◌then◌else◌,
  eqb, trim,
}
use copilot_pool_gateway.Base.StringMap.{get, put}
use copilot_pool_gateway.Store.Disk.{Result}
use copilot_pool_gateway.Store.Account.{Account}
use copilot_pool_gateway.Store.Account.Lookup.{get_enabled_accounts}
use copilot_pool_gateway.Instance.Ports.{
  PortPool, Outcome, ok, err, closed, already_live, probe_failed, release, reserve,
}
use copilot_pool_gateway.Instance.Supervisor.{
  Supervisor, Worker, WorkerEntry, ready, home_for, worker_url_for,
}
use copilot_pool_gateway.Instance.Supervisor.Spawn.{Launch, spawn}

pub record Host : Type 0 where
  pub alive : ℕ → Bool
  pub answers_on : ℕ → Bool
  -- the text of the error, where the probe of a port fails
  pub probe_error : ℕ → String
  pub now : ℕ
  pub launch : String → Launch

-- The home that the account names, or the default one.
abbrev home_of : Supervisor → Account → String
home_of s a = if trim a.worker_home == "" then home_for s a.id else trim a.worker_home

abbrev pub adopted_worker : ℕ → Supervisor → Account → Worker
adopted_worker now s a = record {
  entry = record {
    account_id = a.id;
    port = a.worker_port;
    home = home_of s a;
    pid = a.worker_pid;
    started_at = now;
    status = ready;
    last_error = "";
    worker_url = worker_url_for a.worker_port;
  };
  adopted = true;
}

-- Under the lock: an account that has a worker gives the reserved port back.
unfoldable pub adopt_unless_live :
    Option Worker → ℕ → Account → Supervisor → Outcome Bool × Supervisor
unfolding home_for
adopt_unless_live (some w) now a s =
    (err already_live, record s { ports = release a.worker_port s.ports })
adopt_unless_live none now a s =
    (ok true, record s { workers = put s.workers a.id (adopted_worker now s a) })

-- With the result of Reserve.
unfoldable pub adopt_reserved :
    Outcome PortPool → ℕ → Account → Supervisor → Outcome Bool × Supervisor
unfolding adopt_unless_live
adopt_reserved (err e) now a s = (err e, s)
adopt_reserved (ok ports) now a s =
    if s.closed
    then (err closed, record s { ports = release a.worker_port ports })
    else adopt_unless_live (get s.workers a.id) now a (record s { ports = ports })

-- tryAdopt
unfoldable pub try_adopt : Host → Account → Supervisor → Outcome Bool × Supervisor
unfolding adopt_reserved
try_adopt h a s =
    if eqb a.worker_port 0 || eqb a.worker_pid 0
    then (ok false, s)
    else if not (h.alive a.worker_pid)
    then (ok false, s)
    else if not (h.answers_on a.worker_port)
    then (err probe_failed, s)
    else adopt_reserved (reserve a.worker_port s.ports) h.now a s

-- A worker that is not adopted is spawned, on its last port if that is free.
unfoldable pub spawn_unless_adopted : Launch → Account → Outcome Bool × Supervisor → Supervisor
unfolding spawn
spawn_unless_adopted l a (ok true, s) = s
spawn_unless_adopted l a (ok false, s) = (spawn l a.id (trim a.github_token) a.worker_port s).1
spawn_unless_adopted l a (err e, s) = (spawn l a.id (trim a.github_token) a.worker_port s).1

-- The body of the loop of RecoverFromStore.
unfoldable pub recover_account : Host → Account → Supervisor → Supervisor
unfolding try_adopt spawn_unless_adopted
recover_account h a s =
    if not a.worker_managed || trim a.github_token == ""
    then s
    else spawn_unless_adopted (h.launch a.id) a (try_adopt h a s)

pub recover_accounts : Host → List Account → Supervisor → Supervisor
unfolding recover_account
recover_accounts h [] s = s
recover_accounts h (a ∷ rest) s = recover_accounts h rest (recover_account h a s)

abbrev or_unchanged :
    (List Account → Supervisor → Supervisor) → Result (List Account) → Supervisor → Supervisor
or_unchanged f (Result.ok accounts) s = f accounts s
or_unchanged f (Result.err e) s = s

-- RecoverFromStore
unfoldable pub recover_from_store : Host → Supervisor → Supervisor
unfolding recover_accounts
recover_from_store h s = or_unchanged (recover_accounts h) (get_enabled_accounts s.disk).0 s

-- The body of the loop of MigrateLegacyAccounts.
unfoldable pub migrate_account : Host → Account → Supervisor → Supervisor
unfolding spawn
migrate_account h a s =
    if a.worker_managed || trim a.github_token == ""
    then s
    else (spawn (h.launch a.id) a.id (trim a.github_token) 0 s).1

pub migrate_accounts : Host → List Account → Supervisor → Supervisor
unfolding migrate_account
migrate_accounts h [] s = s
migrate_accounts h (a ∷ rest) s = migrate_accounts h rest (migrate_account h a s)

-- MigrateLegacyAccounts
unfoldable pub migrate_legacy_accounts : Host → Supervisor → Supervisor
unfolding migrate_accounts
migrate_legacy_accounts h s = or_unchanged (migrate_accounts h) (get_enabled_accounts s.disk).0 s
