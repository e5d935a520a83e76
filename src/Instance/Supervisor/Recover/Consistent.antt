-- ===== src/Instance/Supervisor/Recover/Consistent.antt =====
-- The startup passes keep the invariant.
use copilot_pool_gateway.Base.{
  ℕ, ◌≡◌, refl, Bool, true, false, not, ◌||◌, List, [], ◌∷◌, Option, none, some, ◌==◌,
  if◌then◌else◌, eqb, trim,
}
use copilot_pool_gateway.Base.StringMap.{get}
use copilot_pool_gateway.Store.Disk.{Result}
use copilot_pool_gateway.Store.Account.{Account}
use copilot_pool_gateway.Store.Account.Lookup.{get_enabled_accounts}
use copilot_pool_gateway.Instance.Ports.{PortPool, Outcome, ok, err, reserve}
use copilot_pool_gateway.Instance.Ports.Laws.{Granted, reserve-Granted}
use copilot_pool_gateway.Instance.Supervisor.{Supervisor, Worker}
use copilot_pool_gateway.Instance.Supervisor.Invariant.{IsConsistent, register-IsConsistent}
use copilot_pool_gateway.Instance.Supervisor.Spawn.{Launch}
use copilot_pool_gateway.Instance.Supervisor.Spawn.Consistent.{
  spawn-IsConsistent, if-IsConsistent, released-IsConsistent,
}
use copilot_pool_gateway.Instance.Supervisor.Recover.{
  Host, adopt_unless_live, adopt_reserved, try_adopt, spawn_unless_adopted, recover_account,
  recover_accounts, recover_from_store, migrate_account, migrate_accounts, migrate_legacy_accounts,
  or_unchanged,
}

module _ (now : ℕ) (a : Account) where
  adopt_unless_live-IsConsistent :
      (o : Option Worker) (s : Supervisor) (ports : PortPool)
      → get s.workers a.id ≡ o
      → IsConsistent s
      → Granted (λ _. true) s.ports a.worker_port ports
      → IsConsistent (adopt_unless_live o now a (record s { ports = ports })).1
  unfolding adopt_unless_live
  adopt_unless_live-IsConsistent none s ports e c g =
      register-IsConsistent s (λ _. true) a.id _ ports c e refl g
  adopt_unless_live-IsConsistent (some w) s ports e c g =
      released-IsConsistent s (λ _. true) a.worker_port ports c g

  adopt_reserved-IsConsistent :
      (r : Outcome PortPool) (s : Supervisor)
      → ((ports : PortPool) → r ≡ ok ports → Granted (λ _. true) s.ports a.worker_port ports)
      → IsConsistent s
      → IsConsistent (adopt_reserved r now a s).1
  unfolding adopt_reserved
  adopt_reserved-IsConsistent (err e) s g c = c
  adopt_reserved-IsConsistent (ok ports) s g c =
      if-IsConsistent s.closed _ _
        (released-IsConsistent s (λ _. true) a.worker_port ports c (g ports refl))
        (adopt_unless_live-IsConsistent (get s.workers a.id) s ports refl c (g ports refl))

pub try_adopt-IsConsistent :
    (h : Host) (a : Account) (s : Supervisor) → IsConsistent s → IsConsistent (try_adopt h a s).1
unfolding try_adopt
try_adopt-IsConsistent h a s c = if-IsConsistent (eqb a.worker_port 0 || eqb a.worker_pid 0) _ _ c (
    if-IsConsistent (not (h.alive a.worker_pid)) _ _ c (
      if-IsConsistent (not (h.answers_on a.worker_port)) _ _ c (
        adopt_reserved-IsConsistent h.now a (reserve a.worker_port s.ports) s
          (λ ports e. reserve-Granted (λ _. true) a.worker_port s.ports ports refl e) c)))

spawn_unless_adopted-IsConsistent :
    (l : Launch) (a : Account) (r : Outcome Bool) (s : Supervisor)
    → IsConsistent s
    → IsConsistent (spawn_unless_adopted l a (r, s))
unfolding spawn_unless_adopted
spawn_unless_adopted-IsConsistent l a (ok true) s c = c
spawn_unless_adopted-IsConsistent l a (ok false) s c = spawn-IsConsistent l _ _ _ s c
spawn_unless_adopted-IsConsistent l a (err e) s c = spawn-IsConsistent l _ _ _ s c

pub or-IsConsistent :
    (b : Bool) (x y : Supervisor)
    → IsConsistent x
    → IsConsistent y
    → IsConsistent (if b then x else y)
or-IsConsistent true x y cx cy = cx
or-IsConsistent false x y cx cy = cy

recover_accounts-IsConsistent :
    (h : Host) (accounts : List Account) (s : Supervisor)
    → IsConsistent s
    → IsConsistent (recover_accounts h accounts s)
unfolding recover_accounts recover_account
recover_accounts-IsConsistent h [] s c = c
recover_accounts-IsConsistent h (a ∷ rest) s c = recover_accounts-IsConsistent h rest _ (
    or-IsConsistent (not a.worker_managed || trim a.github_token == "") _ _ c
      (spawn_unless_adopted-IsConsistent (h.launch a.id) a _ _ (try_adopt-IsConsistent h a s c)))

migrate_accounts-IsConsistent :
    (h : Host) (accounts : List Account) (s : Supervisor)
    → IsConsistent s
    → IsConsistent (migrate_accounts h accounts s)
unfolding migrate_accounts migrate_account
migrate_accounts-IsConsistent h [] s c = c
migrate_accounts-IsConsistent h (a ∷ rest) s c = migrate_accounts-IsConsistent h rest _ (
    or-IsConsistent (a.worker_managed || trim a.github_token == "") _ _ c
      (spawn-IsConsistent (h.launch a.id) _ _ _ s c))

or_unchanged-IsConsistent :
    (f : List Account → Supervisor → Supervisor) (r : Result (List Account)) (s : Supervisor)
    → ((accounts : List Account) → IsConsistent (f accounts s))
    → IsConsistent s
    → IsConsistent (or_unchanged f r s)
or_unchanged-IsConsistent f (Result.ok accounts) s g c = g accounts
or_unchanged-IsConsistent f (Result.err e) s g c = c

pub recover_from_store-IsConsistent :
    (h : Host) (s : Supervisor) → IsConsistent s → IsConsistent (recover_from_store h s)
unfolding recover_from_store
recover_from_store-IsConsistent h s c =
    or_unchanged-IsConsistent (recover_accounts h) (get_enabled_accounts s.disk).0 s
      (λ accounts. recover_accounts-IsConsistent h accounts s c) c

pub migrate_legacy_accounts-IsConsistent :
    (h : Host) (s : Supervisor) → IsConsistent s → IsConsistent (migrate_legacy_accounts h s)
unfolding migrate_legacy_accounts
migrate_legacy_accounts-IsConsistent h s c =
    or_unchanged-IsConsistent (migrate_accounts h) (get_enabled_accounts s.disk).0 s
      (λ accounts. migrate_accounts-IsConsistent h accounts s c) c
