-- ===== src/Instance/Supervisor/Spawn/Outcomes.antt =====
-- What a Spawn that fails leaves of workers and ports: nothing new. The token file, which it may have
-- written, stays in the home directory.
use copilot_pool_gateway.Base.{
  ℕ, String, ◌≡◌, ◌≢◌, refl, Bool, true, false, Option, none, some, arith, ◌==◌, eq_iff, eq_refl,
  if◌then◌else◌, eqb_iff, trim, inl, inr, Option-cases,
}
use copilot_pool_gateway.Base.StringMap.{StringMap, get, put, get-put, get-remove}
use copilot_pool_gateway.Instance.Ports.{
  PortPool, Outcome, ok, err, SupervisorError, release, select_port,
}
use copilot_pool_gateway.Instance.Ports.Laws.{Granted, select_port-Granted}
use copilot_pool_gateway.Instance.Supervisor.{
  Supervisor, Worker, stopping, start_timeout, with_status, with_failure, mark_start_timeout,
}
use copilot_pool_gateway.Instance.Supervisor.Invariant.{IsConsistent}
use copilot_pool_gateway.Instance.Supervisor.Stop.{exits, stop, stop_worker, tear_down}
use copilot_pool_gateway.Instance.Supervisor.Spawn.{
  Launch, Files, no_home, no_token, no_log, opened, Probe, answers, times_out, fails, new_entry,
  await_ready, start_child, prepare, spawn_unless_live, spawn, finish_ready, with_token,
}

pub get-put_self : (m : StringMap Worker) (id : String) (w : Worker) → get (put m id w) id ≡ some w
get-put_self m id w = simp (get-put, eq_refl)

-- A stop of a worker that is there and exits.
stop_found :
    (s : Supervisor) (id : String) (w : Worker)
    → get s.workers id ≡ some w
    → stop exits id s
      ≡ (ok tt, tear_down id w (record s { workers = put s.workers id (with_status stopping w) }))
unfolding stop stop_worker
stop_found s id w e = rw (e, stop_worker)

mark_found :
    (s : Supervisor) (id : String) (w : Worker) (cause : Option String)
    → get s.workers id ≡ some w
    → mark_start_timeout id cause s
      ≡ record s { workers = put s.workers id (with_failure start_timeout cause w) }
unfolding mark_start_timeout
mark_found s id w cause e = rw (e, mark_start_timeout)

abbrev registered : Supervisor → String → Worker → Supervisor
registered s id w = record s { workers = put s.workers id w }

-- What a failed probe leaves of a worker that was just registered.
give_up-removes :
    (s : Supervisor) (id : String) (w : Worker) (cause : Option String) (j : String)
    → let t = (stop exits id (mark_start_timeout id cause (registered s id w))).1 in
      (get t.workers j ≡ (if id == j then none else get s.workers j))
      × (t.ports ≡ release w.entry.port s.ports)
give_up-removes s id w cause j =
    let w' : Worker = with_failure start_timeout cause w in
    let s' : Supervisor = registered s id w in
    let s'' : Supervisor = registered s' id w' in
    rw
      (
        mark_found s' id w cause (get-put_self s.workers id w),
        stop_found s'' id w' (get-put_self s'.workers id w'),
      )
      (unfold tear_down in
        (
          ground (
            arith,
            get-remove (put s''.workers id (with_status stopping w')) id j,
            get-put s''.workers id j (with_status stopping w'),
            get-put s'.workers id j w',
            get-put s.workers id j w,
          ),
          refl,
        ))

abbrev Restored : Supervisor → Supervisor → String → ℕ → Type 0
Restored s t j p = (get t.workers j ≡ get s.workers j) × (t.ports.allocated p ≡ s.ports.allocated p)

module _ (s : Supervisor) (id : String) (new : get s.workers id ≡ none) (j : String) (p : ℕ) where
  given_up-Restored :
      (bindable : ℕ → Bool) (w : Worker) (ports : PortPool) (cause : Option String)
      → Granted bindable s.ports w.entry.port ports
      → Restored s
          (stop exits id
            (mark_start_timeout id cause (registered (record s { ports = ports }) id w))).1
          j
          p
  given_up-Restored bindable w ports cause g =
      let r = give_up-removes (record s { ports = ports }) id w cause j in
      (
        ground (arith, r.0, eq_iff id j),
        rw r.1 (unfold release in ground (arith, g.marks p, g.was_free, eqb_iff w.entry.port p)),
      )

  finish_ready-ok :
      (o : Option Worker) (t : Supervisor) (e : SupervisorError) → (finish_ready id o t).0 ≢ err e
  finish_ready-ok none t e h = cc
  finish_ready-ok (some w) t e h = cc

  await_ready-Restored :
      (probe : Probe) (bindable : ℕ → Bool) (w : Worker) (ports : PortPool) (e : SupervisorError)
      → Granted bindable s.ports w.entry.port ports
      → (await_ready probe id (registered (record s { ports = ports }) id w)).0 ≡ err e
      → Restored s (await_ready probe id (registered (record s { ports = ports }) id w)).1 j p
  unfolding await_ready
  await_ready-Restored answers bindable w ports e g h = absurd (finish_ready-ok _ _ e h)
  await_ready-Restored (times_out cause) bindable w ports e g h =
      given_up-Restored bindable w ports (some cause) g
  await_ready-Restored (fails cause) bindable w ports e g h =
      given_up-Restored bindable w ports (some cause) g

  start_child-Restored :
      (l : Launch) (r : Outcome (ℕ × PortPool)) (e : SupervisorError)
      → ((port : ℕ) (ports : PortPool)
          → r ≡ ok (port, ports)
          → Granted l.bindable s.ports port ports)
      → (start_child l id s r).0 ≡ err e
      → Restored s (start_child l id s r).1 j p
  unfolding start_child
  start_child-Restored l (err f) e g h = (refl, refl)
  start_child-Restored l (ok (port, ports)) e g h = elim (Option-cases l.pid) [
    | inl x ↦
        rw (x, start_child)
          (
            refl,
            unfold release in
                ground (
                  arith,
                  (g port ports refl).marks p,
                  (g port ports refl).was_free,
                  eqb_iff port p,
                ),
          )
    | inr (pid, x) ↦
        rw (x, start_child)
          (await_ready-Restored l.probe l.bindable
            (record { entry = new_entry s id port pid l.started_at; adopted = false }) ports e
            (g port ports refl) (rw (x, start_child) at h))
  ]

prepare-Restored :
    (files : Files) (l : Launch) (id token : String) (preferred : ℕ) (s : Supervisor)
    (e : SupervisorError)
    → IsConsistent s
    → get s.workers id ≡ none
    → (prepare files l id token preferred s).0 ≡ err e
    → (j : String) (p : ℕ) → Restored s (prepare files l id token preferred s).1 j p
unfolding prepare
prepare-Restored no_home l id token preferred s e c new h j p = (refl, refl)
prepare-Restored no_token l id token preferred s e c new h j p = (refl, refl)
prepare-Restored no_log l id token preferred s e c new h j p = (refl, refl)
prepare-Restored opened l id token preferred s e c new h j p =
    start_child-Restored (with_token id token s) id new j p l
      (select_port l.bindable preferred s.ports) e
      (λ port ports x. select_port-Granted l.bindable preferred s.ports port ports c.proper x) h

spawn_unless_live-Restored :
    (o : Option Worker) (l : Launch) (id token : String) (preferred : ℕ) (s : Supervisor)
    (e : SupervisorError)
    → IsConsistent s
    → get s.workers id ≡ o
    → (spawn_unless_live o l id token preferred s).0 ≡ err e
    → (j : String) (p : ℕ) → Restored s (spawn_unless_live o l id token preferred s).1 j p
unfolding spawn_unless_live
spawn_unless_live-Restored none l id token preferred s e c new h j p =
    prepare-Restored l.files l id token preferred s e c new h j p
spawn_unless_live-Restored (some w) l id token preferred s e c new h j p = (refl, refl)

if-Restored :
    {A : Type 0} (s : Supervisor) (e : SupervisorError) (j : String) (p : ℕ) (b : Bool)
    (x y : Outcome A × Supervisor)
    → Restored s x.1 j p
    → (y.0 ≡ err e → Restored s y.1 j p)
    → (if b then x else y).0 ≡ err e
    → Restored s (if b then x else y).1 j p
if-Restored s e j p true x y rx ry h = rx
if-Restored s e j p false x y rx ry h = ry h

-- From a consistent state, a Spawn that returns an error, on whatever branch, leaves every account
-- with the worker it had (so the account itself without one, unless it had a live one before) and
-- every port as allocated as it was.
pub spawn_fails-restores :
    (l : Launch) (id token : String) (preferred : ℕ) (s : Supervisor) (e : SupervisorError)
    → IsConsistent s
    → (spawn l id token preferred s).0 ≡ err e
    → (j : String) (p : ℕ)
    → (get (spawn l id token preferred s).1.workers j ≡ get s.workers j)
      × ((spawn l id token preferred s).1.ports.allocated p ≡ s.ports.allocated p)
unfolding spawn
spawn_fails-restores l id token preferred s e c h j p =
    if-Restored s e j p (trim id == "") _ _ (refl, refl)
      (if-Restored s e j p s.closed _ _ (refl, refl)
        (λ x. spawn_unless_live-Restored _ l id token preferred s e c refl x j p))
      h
