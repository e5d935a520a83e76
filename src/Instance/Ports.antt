-- ===== src/Instance/Ports.antt =====
-- The port pool of instance/worker_supervisor.go. `bindable` is portBindable: what `net.Listen` says
-- of each port during one call.
pub mod Laws
use copilot_pool_gateway.Base.{
  ℕ, zero, suc, ◌+◌, ◌-◌, Bool, true, false, not, ◌&&◌, ◌||◌, Option, none, some, ltb, leb, eqb,
  if◌then◌else◌,
}

-- The errors of the supervisor and its pool.
pub data SupervisorError : Type 0 where
  empty_account closed already_live unknown_account port_exhausted port_reserved : SupervisorError
  ready_timeout invalid_port_range setup_failed start_failed probe_failed cancelled :
      SupervisorError

pub data Outcome {ℓ} (A : Type ℓ) : Type ℓ where
  ok : A → Outcome A
  err : SupervisorError → Outcome A

pub record PortPool : Type 0 where
  pub start : ℕ
  pub end : ℕ
  pub allocated : ℕ → Bool

-- newPortPool
unfoldable pub new_port_pool : ℕ → ℕ → Outcome PortPool
new_port_pool start end =
    if eqb start 0 || ltb end start
    then err invalid_port_range
    else ok (record { start = start; end = end; allocated = λ _. false })

abbrev pub marked : (ℕ → Bool) → ℕ → Bool → ℕ → Bool
marked allocated port b q = if eqb port q then b else allocated q

-- The loop of Alloc, with the number of ports still to try.
unfoldable pub alloc_from : ℕ → ℕ → (ℕ → Bool) → PortPool → Outcome (ℕ × PortPool)
alloc_from zero port bindable p = err port_exhausted
alloc_from (suc left) port bindable p =
    let rest = alloc_from left (port + 1) bindable p in
    if not (p.allocated port) && bindable port
    then ok (port, record p { allocated = marked p.allocated port true })
    else rest

-- Alloc: the ports from `start` to `end`, both included.
unfoldable pub alloc : (ℕ → Bool) → PortPool → Outcome (ℕ × PortPool)
unfolding alloc_from
alloc bindable p = alloc_from (p.end + 1 - p.start) p.start bindable p

-- Reserve
unfoldable pub reserve : ℕ → PortPool → Outcome PortPool
reserve port p =
    if ltb port p.start || ltb p.end port
    then err invalid_port_range
    else if p.allocated port
    then err port_reserved
    else ok (record p { allocated = marked p.allocated port true })

-- Release
unfoldable pub release : ℕ → PortPool → PortPool
release port p = record p { allocated = marked p.allocated port false }

abbrev or_alloc : (ℕ → Bool) → ℕ → PortPool → Outcome PortPool → Outcome (ℕ × PortPool)
or_alloc bindable preferred p (ok p') = ok (preferred, p')
or_alloc bindable preferred p (err e) = alloc bindable p

-- selectPort
unfoldable pub select_port : (ℕ → Bool) → ℕ → PortPool → Outcome (ℕ × PortPool)
unfolding reserve alloc
select_port bindable preferred p =
    if ltb 0 preferred && leb p.start preferred && leb preferred p.end && bindable preferred
    then or_alloc bindable preferred p (reserve preferred p)
    else alloc bindable p
