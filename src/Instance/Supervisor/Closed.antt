-- ===== src/Instance/Supervisor/Closed.antt =====
-- Shutdown, when every child exits.
use copilot_pool_gateway.Base.{
  ℕ, String, ◌≡◌, refl, ◌∙◌, ap, true, false, List, [], ◌∷◌, Option, none, some, arith, ◌==◌,
  eq_refl, if◌then◌else◌, trim,
}
use copilot_pool_gateway.Base.StringMap.{StringMap, get, put, remove, Distinct}
use copilot_pool_gateway.Instance.Ports.{err, closed, empty_account}
use copilot_pool_gateway.Instance.Supervisor.{Supervisor, Worker, with_status, stopping}
use copilot_pool_gateway.Instance.Supervisor.Table.{port_used}
use copilot_pool_gateway.Instance.Supervisor.Invariant.{IsConsistent}
use copilot_pool_gateway.Instance.Supervisor.Stop.{
  Exit, exits, outlives, tear_down, stop_worker, stop, stop_all, ids, shutdown,
}
use copilot_pool_gateway.Instance.Supervisor.Reachable.{step, shutdown_call, step-IsConsistent}
use copilot_pool_gateway.Instance.Supervisor.Spawn.{Launch, spawn}

module _ {V : Type 0} where
  remove_missing : (m : StringMap V) (k : String) → get m k ≡ none → remove m k ≡ m
  unfolding get remove
  remove_missing [] k h = refl
  remove_missing ((i, w) ∷ m) k h = ground (arith, remove_missing m k)

  -- Setting the first key and deleting it leaves the rest.
  remove-put_first :
      (m : StringMap V) (k : String) (v w : V)
      → get m k ≡ none
      → remove (put ((k, v) ∷ m) k w) k ≡ m
  unfolding get remove put
  remove-put_first m k v w h = ground (arith, eq_refl k, remove_missing m k h)

stop_first :
    (id : String) (w : Worker) (rest : StringMap Worker) (s : Supervisor)
    → s.workers ≡ (id, w) ∷ rest
    → get rest id ≡ none
    → (stop exits id s).1.workers ≡ rest
unfolding stop stop_worker tear_down get
stop_first id w rest s e h =
    rw (e, eq_refl id, stop_worker) (remove-put_first rest id w (with_status stopping w) h)

stop_all_workers :
    (ws : StringMap Worker) (s : Supervisor)
    → s.workers ≡ ws
    → Distinct ws
    → (stop_all (λ _. exits) (ids ws) s).workers ≡ []
unfolding stop_all ids
stop_all_workers [] s e d = e
stop_all_workers ((id, w) ∷ rest) s e d =
    stop_all_workers rest (stop exits id s).1 (stop_first id w rest s e d.0) d.1

stop_worker-closed :
    (outcome : Exit) (id : String) (o : Option Worker) (s : Supervisor)
    → (stop_worker outcome id o s).1.closed ≡ s.closed
unfolding stop_worker tear_down
stop_worker-closed outcome id none s = refl
stop_worker-closed exits id (some w) s = refl
stop_worker-closed outlives id (some w) s = refl

stop_all-closed :
    (outcome : String → Exit) (list : List String) (s : Supervisor)
    → (stop_all outcome list s).closed ≡ s.closed
unfolding stop_all stop
stop_all-closed outcome [] s = refl
stop_all-closed outcome (id ∷ rest) s =
    stop_all-closed outcome rest _ ∙ stop_worker-closed (outcome id) id (get s.workers id) s

-- After a Shutdown of a consistent supervisor in which every child exits, there are no workers and no
-- allocated ports.
pub shutdown_empties :
    (s : Supervisor) (p : ℕ)
    → IsConsistent s
    → ((shutdown (λ _. exits) s).workers ≡ [])
      × ((shutdown (λ _. exits) s).ports.allocated p ≡ false)
unfolding shutdown step
shutdown_empties s p c =
    let empty : (shutdown (λ _. exits) s).workers ≡ [] =
      stop_all_workers s.workers _ refl c.distinct in
    (empty, (step-IsConsistent (shutdown_call (λ _. exits)) s c).owned p ∙ ap (port_used p) empty)

-- After a Shutdown, whatever its children do, no Spawn changes anything: it fails, with the error
-- for a blank account or the one for a closed supervisor.
pub shutdown_refuses :
    (outcome : String → Exit) (s : Supervisor) (l : Launch) (id token : String) (preferred : ℕ)
    → let s' : Supervisor = shutdown outcome s in
      spawn l id token preferred s' ≡ (err (if trim id == "" then empty_account else closed), s')
unfolding shutdown spawn
shutdown_refuses outcome s l id token preferred =
    ground (arith, stop_all-closed outcome (ids s.workers) (record s { closed = true }))
