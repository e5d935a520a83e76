-- ===== src/Instance/Supervisor/Spawn/Consistent.antt =====
-- Spawn and Restart keep the invariant.
use copilot_pool_gateway.Base.{
  ℕ, String, ◌≡◌, refl, Bool, true, false, Option, none, some, arith, ◌==◌, if◌then◌else◌, eqb_iff,
  trim, inl, inr, Option-cases,
}
use copilot_pool_gateway.Base.StringMap.{get}
use copilot_pool_gateway.Instance.Ports.{
  PortPool, Outcome, ok, err, unknown_account, release, select_port,
}
use copilot_pool_gateway.Instance.Ports.Laws.{Granted, select_port-Granted}
use copilot_pool_gateway.Instance.Supervisor.{Supervisor, Worker, ready, with_status}
use copilot_pool_gateway.Instance.Supervisor.Invariant.{
  IsConsistent, register-IsConsistent, mark_start_timeout-IsConsistent, stop-IsConsistent,
  put_same-IsConsistent,
}
use copilot_pool_gateway.Instance.Supervisor.Stop.{Exit, exits, stop}
use copilot_pool_gateway.Instance.Supervisor.Spawn.{
  Launch, Files, no_home, no_token, no_log, opened, Probe, answers, times_out, fails,
  persist_on_ready, await_ready, start_child, prepare, spawn_unless_live, spawn, restart,
  finish_ready, with_token, respawn,
}

-- The disk and the homes do not matter to the invariant.
pub same_table-IsConsistent :
    (s t : Supervisor) → t.workers ≡ s.workers → t.ports ≡ s.ports → IsConsistent s → IsConsistent t
same_table-IsConsistent s t ws ps c = record {
  distinct = rw ws c.distinct;
  apart = rw ws c.apart;
  named = rw ws c.named;
  proper = rw ps c.proper;
  owned = rw (ws, ps) c.owned;
  above = rw ps c.above;
  below = rw ps c.below;
}

finish_ready-IsConsistent :
    (id : String) (o : Option Worker) (s : Supervisor)
    → get s.workers id ≡ o
    → IsConsistent s
    → IsConsistent (finish_ready id o s).1
unfolding persist_on_ready
finish_ready-IsConsistent id none s e c = same_table-IsConsistent s _ refl refl c
finish_ready-IsConsistent id (some w) s e c =
    same_table-IsConsistent _ _ refl refl
      (put_same-IsConsistent s id w (with_status ready w) c e refl refl)

await_ready-IsConsistent :
    (probe : Probe) (id : String) (s : Supervisor)
    → IsConsistent s
    → IsConsistent (await_ready probe id s).1
unfolding await_ready
await_ready-IsConsistent answers id s c = finish_ready-IsConsistent id _ s refl c
await_ready-IsConsistent (times_out cause) id s c =
    stop-IsConsistent exits id _ (mark_start_timeout-IsConsistent id (some cause) s c)
await_ready-IsConsistent (fails cause) id s c =
    stop-IsConsistent exits id _ (mark_start_timeout-IsConsistent id (some cause) s c)

-- A port that is granted and given back leaves the invariant.
pub released-IsConsistent :
    (s : Supervisor) (bindable : ℕ → Bool) (port : ℕ) (ports : PortPool)
    → IsConsistent s
    → Granted bindable s.ports port ports
    → IsConsistent (record s { ports = release port ports })
unfolding release
released-IsConsistent s bindable port ports c g = record {
  distinct = c.distinct;
  apart = c.apart;
  named = c.named;
  proper = ground (arith, c.proper, g.same_start, g.same_end);
  owned = λ p. ground (arith, g.marks p, c.owned p, g.was_free, eqb_iff port p);
  above = λ p h. ground (arith, g.marks p, c.above p, g.same_start);
  below = λ p h. ground (arith, g.marks p, c.below p, g.same_end);
}

module _ (l : Launch) (id : String) (s : Supervisor) (c : IsConsistent s)
    (new : get s.workers id ≡ none) where
  start_child-IsConsistent :
      (r : Outcome (ℕ × PortPool))
      → ((port : ℕ) (ports : PortPool)
          → r ≡ ok (port, ports)
          → Granted l.bindable s.ports port ports)
      → IsConsistent (start_child l id s r).1
  unfolding start_child
  start_child-IsConsistent (err e) g = c
  start_child-IsConsistent (ok (port, ports)) g = elim (Option-cases l.pid) [
    | inl e ↦
        rw (e, start_child) (released-IsConsistent s l.bindable port ports c (g port ports refl))
    | inr (pid, e) ↦
        rw (e, start_child)
          (await_ready-IsConsistent l.probe id _
            (register-IsConsistent s l.bindable id _ ports c new refl (g port ports refl)))
  ]

prepare-IsConsistent :
    (l : Launch) (id : String) (s : Supervisor)
    → IsConsistent s
    → get s.workers id ≡ none
    → (files : Files) (token : String) (preferred : ℕ)
    → IsConsistent (prepare files l id token preferred s).1
unfolding prepare
prepare-IsConsistent l id s c new no_home token preferred = c
prepare-IsConsistent l id s c new no_token token preferred = c
prepare-IsConsistent l id s c new no_log token preferred = same_table-IsConsistent s _ refl refl c
prepare-IsConsistent l id s c new opened token preferred =
    start_child-IsConsistent l id (with_token id token s) (same_table-IsConsistent s _ refl refl c)
      new (select_port l.bindable preferred s.ports)
      (λ port ports e. select_port-Granted l.bindable preferred s.ports port ports c.proper e)

spawn_unless_live-IsConsistent :
    (o : Option Worker) (l : Launch) (id token : String) (preferred : ℕ) (s : Supervisor)
    → get s.workers id ≡ o
    → IsConsistent s
    → IsConsistent (spawn_unless_live o l id token preferred s).1
unfolding spawn_unless_live
spawn_unless_live-IsConsistent none l id token preferred s e c =
    prepare-IsConsistent l id s c e l.files token preferred
spawn_unless_live-IsConsistent (some w) l id token preferred s e c = c

pub if-IsConsistent :
    {A : Type 0} (b : Bool) (x y : A × Supervisor)
    → IsConsistent x.1
    → IsConsistent y.1
    → IsConsistent (if b then x else y).1
if-IsConsistent true x y cx cy = cx
if-IsConsistent false x y cx cy = cy

-- Starting a worker keeps the invariant on every branch: whatever fails, no port stays allocated
-- without a worker, and no worker without its port.
pub spawn-IsConsistent :
    (l : Launch) (id token : String) (preferred : ℕ) (s : Supervisor)
    → IsConsistent s
    → IsConsistent (spawn l id token preferred s).1
unfolding spawn
spawn-IsConsistent l id token preferred s c = if-IsConsistent (trim id == "") _ _ c (
    if-IsConsistent s.closed _ _ c (spawn_unless_live-IsConsistent _ l id token preferred s refl c))

respawn-IsConsistent :
    (l : Launch) (id token : String) (r : Outcome (Unit {0})) (s : Supervisor)
    → IsConsistent s
    → IsConsistent (respawn l id token (r, s)).1
respawn-IsConsistent l id token (ok _) s c = spawn-IsConsistent l id token 0 s c
respawn-IsConsistent l id token (err unknown_account) s c = spawn-IsConsistent l id token 0 s c
respawn-IsConsistent l id token (err _) s c = c

pub restart-IsConsistent :
    (outcome : Exit) (l : Launch) (id token : String) (s : Supervisor)
    → IsConsistent s
    → IsConsistent (restart outcome l id token s).1
unfolding restart
restart-IsConsistent outcome l id token s c =
    respawn-IsConsistent l id token (stop outcome id s).0 _ (stop-IsConsistent outcome id s c)
