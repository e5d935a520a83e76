-- ===== src/Examples/SupervisorRuns.antt =====
-- The supervisor's theorems on a range of ports and one worker.
use copilot_pool_gateway.Base.{
  ℕ, ◌≡◌, refl, true, false, List, [], ◌∷◌, none, some, arith, ◌==◌, if◌then◌else◌, trim, is_space,
}
use copilot_pool_gateway.Base.StringMap.{get}
use copilot_pool_gateway.Instance.Ports.{ok, err}
use copilot_pool_gateway.Instance.Supervisor.{
  Supervisor, Worker, ready, new_supervisor, resolve_ports,
}
use copilot_pool_gateway.Instance.Supervisor.Invariant.{IsConsistent}
use copilot_pool_gateway.Instance.Supervisor.Stop.{exits, shutdown}
use copilot_pool_gateway.Instance.Supervisor.Spawn.{
  Launch, answers, opened, no_home, new_entry, prepare, spawn_unless_live, spawn,
}
use copilot_pool_gateway.Instance.Supervisor.Spawn.Outcomes.{spawn_fails-restores}
use copilot_pool_gateway.Instance.Supervisor.Spawn.Success.{spawn_succeeds}
use copilot_pool_gateway.Instance.Supervisor.Reachable.{
  Call, run, spawn_call, stop_call, child_exits, run-IsConsistent, new_supervisor-IsConsistent,
}
use copilot_pool_gateway.Instance.Supervisor.Closed.{shutdown_empties}
use copilot_pool_gateway.Instance.Ports.{setup_failed, new_port_pool}
use copilot_pool_gateway.Examples.Accounts.{disk}

abbrev fresh : Supervisor
fresh = record {
  workers_root = "/w";
  workers = [];
  ports = record { start = 9100; end = 9101; allocated = λ _. false };
  closed = false;
  disk = disk;
  homes = [];
}

abbrev launch : Launch
launch = record {
  files = opened;
  bindable = λ _. true;
  pid = some 4242;
  started_at = 7;
  probe = answers;
}

fresh_new : new_supervisor "/w" 9100 9101 disk ≡ ok fresh
unfolding new_supervisor resolve_ports new_port_pool
fresh_new = refl

fresh-IsConsistent : IsConsistent fresh
fresh-IsConsistent = new_supervisor-IsConsistent "/w" 9100 9101 disk fresh fresh_new

abbrev calls : List Call
calls =
    spawn_call launch "a1" "ghu_a" 0
    ∷ spawn_call launch "b2" "ghu_b" 9100
    ∷ stop_call exits "a1"
    ∷ child_exits "b2" (some "exit status 1")
    ∷ []

run-IsConsistent_example : IsConsistent (run calls fresh)
run-IsConsistent_example = run-IsConsistent "/w" 9100 9101 disk fresh calls fresh_new

fails : (spawn (record launch { files = no_home }) "a1" "ghu_a" 0 fresh).0 ≡ err setup_failed
unfolding spawn spawn_unless_live prepare get trim is_space
fails = refl

spawn_fails-restores_example :
    (get (spawn (record launch { files = no_home }) "a1" "ghu_a" 0 fresh).1.workers "a1"
      ≡ get fresh.workers "a1")
    × ((spawn (record launch { files = no_home }) "a1" "ghu_a" 0 fresh).1.ports.allocated 9100
        ≡ fresh.ports.allocated 9100)
spawn_fails-restores_example =
    spawn_fails-restores (record launch { files = no_home }) "a1" "ghu_a" 0 fresh setup_failed
      fresh-IsConsistent fails "a1" 9100

named : (trim "a1" == "") ≡ false
unfolding trim is_space
named = refl

missing : get fresh.workers "a1" ≡ none
unfolding get
missing = refl

spawn_succeeds_example :
    (port : ℕ) × (fresh.ports.allocated port ≡ false)
    × (let w : Worker = record {
      entry = record (new_entry fresh "a1" port 4242 7) { status = ready };
      adopted = false;
    } in
        ((spawn launch "a1" "ghu_a" 0 fresh).0 ≡ ok w.entry)
        × (get (spawn launch "a1" "ghu_a" 0 fresh).1.workers "a1"
            ≡ (if "a1" == "a1" then some w else get fresh.workers "a1")))
spawn_succeeds_example =
    spawn_succeeds launch "a1" "ghu_a" 0 9101 4242 fresh fresh-IsConsistent named refl missing refl
      refl refl (omega arith) (omega arith) refl refl "a1"

abbrev busy : Supervisor
busy = run calls fresh

shutdown_empties_example :
    ((shutdown (λ _. exits) busy).workers ≡ [])
    × ((shutdown (λ _. exits) busy).ports.allocated 9100 ≡ false)
shutdown_empties_example = shutdown_empties busy 9100 run-IsConsistent_example
