-- ===== src/Instance/Supervisor/Invariant.antt =====
-- The supervisor's invariant: the allocated ports are exactly those of its workers.
use copilot_pool_gateway.Base.{
  ℕ, ◌≤◌, String, ◌≡◌, refl, sym, ◌∙◌, Bool, true, Option, none, some, arith, eq_refl, eqb_iff,
}
use copilot_pool_gateway.Base.StringMap.{get, put, Distinct, put-Distinct, remove-Distinct, get-put}
use copilot_pool_gateway.Instance.Ports.{PortPool, release}
use copilot_pool_gateway.Instance.Ports.Laws.{Granted}
use copilot_pool_gateway.Instance.Supervisor.{
  Supervisor, Worker, stopping, with_status, set_worker, mark_start_timeout, mark_crashed,
}
use copilot_pool_gateway.Instance.Supervisor.Table.{
  PortsApart, Named, port_used, used-put_new, apart-put_new, used-put_same, apart-put_same,
  used-remove, apart-remove, put-Named, remove-Named, get-Named,
}
use copilot_pool_gateway.Instance.Supervisor.Stop.{
  Exit, exits, outlives, tear_down, stop_worker, stop,
}

pub record IsConsistent (s : Supervisor) : Type 0 where
  pub distinct : Distinct s.workers
  pub apart : PortsApart s.workers
  pub named : Named s.workers
  pub proper : s.ports.start ≤ s.ports.end
  -- a port is allocated exactly while a worker has it
  pub owned : (p : ℕ) → s.ports.allocated p ≡ port_used p s.workers
  pub above : (p : ℕ) → s.ports.allocated p ≡ true → s.ports.start ≤ p
  pub below : (p : ℕ) → s.ports.allocated p ≡ true → p ≤ s.ports.end

-- Changing a worker in place, without its account and port, keeps the invariant.
pub put_same-IsConsistent :
    (s : Supervisor) (id : String) (v w : Worker)
    → IsConsistent s
    → get s.workers id ≡ some v
    → w.entry.port ≡ v.entry.port
    → w.entry.account_id ≡ v.entry.account_id
    → IsConsistent (record s { workers = put s.workers id w })
put_same-IsConsistent s id v w c h same_port same_id = record {
  distinct = put-Distinct s.workers id w c.distinct;
  apart = apart-put_same s.workers id v w h same_port c.apart;
  named = put-Named s.workers id w (same_id ∙ get-Named s.workers id v c.named h) c.named;
  proper = c.proper;
  owned = λ p. c.owned p ∙ sym (used-put_same p s.workers id v w h same_port);
  above = c.above;
  below = c.below;
}

-- Registering a worker on a port that the pool grants keeps the invariant.
pub register-IsConsistent :
    (s : Supervisor) (bindable : ℕ → Bool) (id : String) (w : Worker) (ports : PortPool)
    → IsConsistent s
    → get s.workers id ≡ none
    → w.entry.account_id ≡ id
    → Granted bindable s.ports w.entry.port ports
    → IsConsistent (record s { ports = ports; workers = put s.workers id w })
register-IsConsistent s bindable id w ports c new named g = record {
  distinct = put-Distinct s.workers id w c.distinct;
  apart = apart-put_new s.workers id w new (sym (c.owned w.entry.port) ∙ g.was_free) c.apart;
  named = put-Named s.workers id w named c.named;
  proper = ground (arith, g.same_start, g.same_end);
  owned = λ p. ground (arith, g.marks p, c.owned p, used-put_new p s.workers id w new);
  above = λ p h. ground (arith, g.marks p, c.above p, g.same_start, eqb_iff w.entry.port p);
  below = λ p h. ground (arith, g.marks p, c.below p, g.same_end, eqb_iff w.entry.port p);
}

-- The teardown of a worker, by its port.
tear_down-IsConsistent :
    (s : Supervisor) (id : String) (v w : Worker)
    → IsConsistent s
    → get s.workers id ≡ some v
    → w.entry.port ≡ v.entry.port
    → IsConsistent (tear_down id w s)
unfolding tear_down release
tear_down-IsConsistent s id v w c h e = record {
  distinct = remove-Distinct s.workers id c.distinct;
  apart = apart-remove s.workers id v c.distinct c.apart h;
  named = remove-Named s.workers id c.named;
  proper = c.proper;
  owned = λ p. ground (arith, c.owned p, used-remove p s.workers id v c.distinct c.apart h);
  above = λ p x. ground (arith, c.above p);
  below = λ p x. ground (arith, c.below p);
}

-- A change in place by a function that keeps account and port.
set_worker-IsConsistent :
    (s : Supervisor) (id : String) (f : Worker → Worker) (o : Option Worker)
    → ((w : Worker) → (f w).entry.port ≡ w.entry.port)
    → ((w : Worker) → (f w).entry.account_id ≡ w.entry.account_id)
    → get s.workers id ≡ o
    → IsConsistent s
    → IsConsistent (set_worker id f o s)
set_worker-IsConsistent s id f none port name e c = c
set_worker-IsConsistent s id f (some w) port name e c =
    put_same-IsConsistent s id w (f w) c e (port w) (name w)

pub mark_start_timeout-IsConsistent :
    (id : String) (cause : Option String) (s : Supervisor)
    → IsConsistent s
    → IsConsistent (mark_start_timeout id cause s)
unfolding mark_start_timeout
mark_start_timeout-IsConsistent id cause s c =
    set_worker-IsConsistent s id _ _ (λ w. refl) (λ w. refl) refl c

pub mark_crashed-IsConsistent :
    (id : String) (cause : Option String) (s : Supervisor)
    → IsConsistent s
    → IsConsistent (mark_crashed id cause s)
unfolding mark_crashed
mark_crashed-IsConsistent id cause s c =
    set_worker-IsConsistent s id _ _ (λ w. ground arith) (λ w. ground arith) refl c

stop_worker-IsConsistent :
    (outcome : Exit) (id : String) (o : Option Worker) (s : Supervisor)
    → get s.workers id ≡ o
    → IsConsistent s
    → IsConsistent (stop_worker outcome id o s).1
unfolding stop_worker
stop_worker-IsConsistent outcome id none s e c = c
stop_worker-IsConsistent exits id (some w) s e c =
    tear_down-IsConsistent _ id (with_status stopping w) w
      (put_same-IsConsistent s id w (with_status stopping w) c e refl refl)
      (ground (arith, get-put s.workers id id (with_status stopping w), eq_refl id)) refl
stop_worker-IsConsistent outlives id (some w) s e c =
    put_same-IsConsistent s id w (with_status stopping w) c e refl refl

pub stop-IsConsistent :
    (outcome : Exit) (id : String) (s : Supervisor)
    → IsConsistent s
    → IsConsistent (stop outcome id s).1
unfolding stop
stop-IsConsistent outcome id s c = stop_worker-IsConsistent outcome id _ s refl c
