-- ===== src/Instance/Supervisor/Spawn/Success.antt =====
-- When a Spawn succeeds, and what it leaves then.
use copilot_pool_gateway.Base.{
  ℕ, ◌≤◌, String, ◌≡◌, refl, ap, ◌∙◌, Bool, true, false, none, some, arith, ◌==◌, if◌then◌else◌,
  trim,
}
use copilot_pool_gateway.Base.StringMap.{get, put, get-put}
use copilot_pool_gateway.Instance.Supervisor.Spawn.Outcomes.{get-put_self}
use copilot_pool_gateway.Instance.Ports.{PortPool, ok, select_port}
use copilot_pool_gateway.Instance.Ports.Laws.{select_port-Granted, select_port_total}
use copilot_pool_gateway.Instance.Supervisor.{Supervisor, Worker, ready, home_for}
use copilot_pool_gateway.Instance.Supervisor.Invariant.{IsConsistent}
use copilot_pool_gateway.Instance.Supervisor.Spawn.{
  Launch, opened, answers, new_entry, persist_on_ready, await_ready, start_child, prepare,
  spawn_unless_live, spawn, finish_ready, with_token,
}

abbrev ready_worker : Supervisor → String → ℕ → ℕ → ℕ → Worker
ready_worker s id port pid now = record {
  entry = record (new_entry s id port pid now) { status = ready };
  adopted = false;
}

start_child_ok :
    (l : Launch) (id : String) (s : Supervisor) (port pid : ℕ) (ports : PortPool)
    → l.pid ≡ some pid
    → l.probe ≡ answers
    → (j : String)
    → ((start_child l id s (ok (port, ports))).0
        ≡ ok (ready_worker s id port pid l.started_at).entry)
      × (get (start_child l id s (ok (port, ports))).1.workers j
          ≡ (if id == j then some (ready_worker s id port pid l.started_at) else get s.workers j))
unfolding start_child persist_on_ready
start_child_ok l id s port pid ports started probe j =
    let w : Worker = record { entry = new_entry s id port pid l.started_at; adopted = false } in
    rw (started, probe, start_child, await_ready, get-put_self s.workers id w, finish_ready)
      (
        refl,
        ground (
          arith,
          get-put (put s.workers id w) id j (ready_worker s id port pid l.started_at),
          get-put s.workers id j w,
        ),
      )

if_false : {A : Type 0} (b : Bool) (x y : A) → b ≡ false → (if b then x else y) ≡ y
if_false b x y e = rw e

-- A spawn that passes its checks is what follows them.
spawns :
    (l : Launch) (id token : String) (preferred : ℕ) (s : Supervisor) (port : ℕ) (ports : PortPool)
    → (trim id == "") ≡ false
    → s.closed ≡ false
    → get s.workers id ≡ none
    → l.files ≡ opened
    → select_port l.bindable preferred s.ports ≡ ok (port, ports)
    → spawn l id token preferred s ≡ start_child l id (with_token id token s) (ok (port, ports))
unfolding spawn
spawns l id token preferred s port ports named opens missing files e =
    if_false (trim id == "") _ _ named
    ∙ if_false s.closed _ _ opens
    ∙ ap (λ o. spawn_unless_live o l id token preferred s) missing
    ∙ unfold spawn_unless_live in
      ap (λ f. prepare f l id token preferred s) files
      ∙ unfold prepare in ap (start_child l id (with_token id token s)) e

-- A Spawn succeeds, for an account with a name and without a worker, on an open and consistent
-- supervisor that has a free port which can be bound, if the files are written, the child starts
-- and its probe answers. The account then has a ready worker of that process, on a port that was
-- free; every other account has the worker that it had.
pub spawn_succeeds :
    (l : Launch) (id token : String) (preferred q pid : ℕ) (s : Supervisor)
    → IsConsistent s
    → (trim id == "") ≡ false
    → s.closed ≡ false
    → get s.workers id ≡ none
    → l.files ≡ opened
    → l.pid ≡ some pid
    → l.probe ≡ answers
    → s.ports.start ≤ q
    → q ≤ s.ports.end
    → s.ports.allocated q ≡ false
    → l.bindable q ≡ true
    → (j : String)
    → (port : ℕ) × (s.ports.allocated port ≡ false)
      × (let w : Worker = record {
        entry = record (new_entry s id port pid l.started_at) { status = ready };
        adopted = false;
      } in
          ((spawn l id token preferred s).0 ≡ ok w.entry)
          × (get (spawn l id token preferred s).1.workers j
              ≡ (if id == j then some w else get s.workers j)))
unfolding home_for
spawn_succeeds l id token preferred q pid s c named opens missing files started probe a b free binds
      j =
    let (port, ports, e) = select_port_total l.bindable preferred q s.ports a b free binds in
    (
      port,
      (select_port-Granted l.bindable preferred s.ports port ports c.proper e).was_free,
      rw (spawns l id token preferred s port ports named opens missing files e)
          (start_child_ok l id (with_token id token s) port pid ports started probe j),
    )
