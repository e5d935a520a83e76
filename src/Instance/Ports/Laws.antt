-- ===== src/Instance/Ports/Laws.antt =====
-- What the pool hands out, and when it says that it has nothing.
use copilot_pool_gateway.Base.{
  ℕ, zero, suc, ◌+◌, ◌-◌, ◌≤◌, ◌<◌, ◌≡◌, refl, Bool, true, false, not, ◌&&◌, ◌⊎◌, inl, inr, arith,
  ltb, leb, eqb, if◌then◌else◌, Bool-cases, eqb_iff, subst,
}
use copilot_pool_gateway.Instance.Ports.{
  PortPool, Outcome, ok, err, port_exhausted, alloc_from, alloc, or_alloc, reserve, release,
  select_port,
}

-- What a successful allocation says of the port and of the pool after it.
pub record Granted (bindable : ℕ → Bool) (p : PortPool) (port : ℕ) (p' : PortPool) : Type 0 where
  pub above : p.start ≤ port
  pub below : port ≤ p.end
  pub was_free : p.allocated port ≡ false
  pub binds : bindable port ≡ true
  pub same_start : p'.start ≡ p.start
  pub same_end : p'.end ≡ p.end
  pub marks : (q : ℕ) → p'.allocated q ≡ (if eqb port q then true else p.allocated q)

-- A port is of no use if it is allocated or cannot be bound.
abbrev pub IsTaken : (ℕ → Bool) → PortPool → ℕ → Type 0
IsTaken bindable p q = (p.allocated q ≡ true) ⊎ (bindable q ≡ false)

abbrev pub Allocates : (ℕ → Bool) → PortPool → ℕ → Outcome (ℕ × PortPool) → Type 0
Allocates bindable p first (ok (port, p')) =
    Granted bindable p port p' × ((q : ℕ) → first ≤ q → q < port → IsTaken bindable p q)
Allocates bindable p first (err e) =
    (e ≡ port_exhausted) × ((q : ℕ) → first ≤ q → q ≤ p.end → IsTaken bindable p q)

IsTaken-at :
    (bindable : ℕ → Bool) (p : PortPool) (port q : ℕ)
    → IsTaken bindable p port
    → port ≤ q
    → (port + 1 ≤ q → IsTaken bindable p q)
    → IsTaken bindable p q
IsTaken-at bindable p port q taken le above = elim (Bool-cases (eqb port q)) [
  | inl e ↦ subst (IsTaken bindable p) ((eqb_iff port q).0 e) taken
  | inr e ↦ above (ground arith)
]

Allocates-below :
    (bindable : ℕ → Bool) (p : PortPool) (port : ℕ)
    → IsTaken bindable p port
    → (r : Outcome (ℕ × PortPool)) → Allocates bindable p (port + 1) r
    → Allocates bindable p port r
Allocates-below bindable p port taken (ok (port', p')) h =
    (h.0, λ q x y. IsTaken-at bindable p port q taken x (λ z. h.1 q z y))
Allocates-below bindable p port taken (err e) h =
    (h.0, λ q x y. IsTaken-at bindable p port q taken x (λ z. h.1 q z y))

alloc_from-Allocates :
    (left port : ℕ) (bindable : ℕ → Bool) (p : PortPool)
    → p.start ≤ port
    → port + left ≡ p.end + 1
    → Allocates bindable p port (alloc_from left port bindable p)
unfolding alloc_from
alloc_from-Allocates zero port bindable p a e = (refl, λ q x y. absurd (omega arith))
alloc_from-Allocates (suc left) port bindable p a e =
    elim (Bool-cases (not (p.allocated port) && bindable port)) [
      | inl free ↦ rw free (
        record {
          above = a;
          below = omega arith;
          was_free = ground arith;
          binds = ground arith;
          same_start = refl;
          same_end = refl;
          marks = λ q. refl;
        },
        λ q x y. absurd (omega arith),
      )
      | inr used ↦ rw used (
          Allocates-below bindable p port (ground arith) (alloc_from left (port + 1) bindable p)
            (alloc_from-Allocates left (port + 1) bindable p (omega arith) (omega arith)))
    ]

alloc-Allocates :
    (bindable : ℕ → Bool) (p : PortPool)
    → p.start ≤ p.end
    → Allocates bindable p p.start (alloc bindable p)
unfolding alloc
alloc-Allocates bindable p h =
    alloc_from-Allocates (p.end + 1 - p.start) p.start bindable p (omega arith) (omega arith)

Allocates-total :
    (bindable : ℕ → Bool) (p : PortPool) (q : ℕ) (r : Outcome (ℕ × PortPool))
    → Allocates bindable p p.start r
    → p.start ≤ q
    → q ≤ p.end
    → p.allocated q ≡ false
    → bindable q ≡ true
    → (port : ℕ) × (p' : PortPool) × (r ≡ ok (port, p')) × Granted bindable p port p' × (port ≤ q)
Allocates-total bindable p q (ok (port, p')) h a b free binds = (
  port,
  p',
  refl,
  h.0,
  elim (Bool-cases (leb port q)) [
    | inl e ↦ ground arith
    | inr e ↦ absurd (not_taken (h.1 q a (ground arith)))
  ],
)
  where
    not_taken : IsTaken bindable p q → ⊥
    not_taken t = ground arith
Allocates-total bindable p q (err e) h a b free binds = absurd (not_taken (h.1 q a b))
  where
    not_taken : IsTaken bindable p q → ⊥
    not_taken t = ground arith

-- Where some port of a proper range is free and can be bound, Alloc succeeds, with a port of the
-- range that was free and can be bound and is no larger; the pool then differs in that port only.
pub alloc_total :
    (bindable : ℕ → Bool) (p : PortPool) (q : ℕ)
    → p.start ≤ q
    → q ≤ p.end
    → p.allocated q ≡ false
    → bindable q ≡ true
    → (port : ℕ) × (p' : PortPool) × (alloc bindable p ≡ ok (port, p'))
      × Granted bindable p port p'
      × (port ≤ q)
alloc_total bindable p q a b free binds =
    Allocates-total bindable p q (alloc bindable p) (alloc-Allocates bindable p (omega arith)) a b
      free binds

alloc-Granted :
    (bindable : ℕ → Bool) (p : PortPool) (port : ℕ) (p' : PortPool)
    → p.start ≤ p.end
    → alloc bindable p ≡ ok (port, p')
    → Granted bindable p port p'
alloc-Granted bindable p port p' h e =
    (subst (Allocates bindable p p.start) e (alloc-Allocates bindable p h)).0

abbrev preferable : (ℕ → Bool) → ℕ → PortPool → Bool
preferable bindable preferred p =
    ltb 0 preferred && leb p.start preferred && leb preferred p.end && bindable preferred

pub reserve-Granted :
    (bindable : ℕ → Bool) (port : ℕ) (p p' : PortPool)
    → bindable port ≡ true
    → reserve port p ≡ ok p'
    → Granted bindable p port p'
unfolding reserve
reserve-Granted bindable port p p' t e = record {
  above = ground arith;
  below = ground arith;
  was_free = ground arith;
  binds = ground arith;
  same_start = ground arith;
  same_end = ground arith;
  marks = λ q. ground arith;
}

or_alloc-Granted :
    (bindable : ℕ → Bool) (preferred : ℕ) (p : PortPool) (port : ℕ) (p' : PortPool)
    → p.start ≤ p.end
    → preferable bindable preferred p ≡ true
    → (r : Outcome PortPool) → reserve preferred p ≡ r
    → or_alloc bindable preferred p r ≡ ok (port, p')
    → Granted bindable p port p'
or_alloc-Granted bindable preferred p port p' h t (ok q) e x =
    let e₁ : preferred ≡ port = ground arith in
    let e₂ : q ≡ p' = ground arith in
    rw (← e₁, ← e₂) (reserve-Granted bindable preferred p q (ground arith) e)
or_alloc-Granted bindable preferred p port p' h t (err f) e x = alloc-Granted bindable p port p' h x

-- A selected port is granted by the pool, whether it is the preferred one or not.
pub select_port-Granted :
    (bindable : ℕ → Bool) (preferred : ℕ) (p : PortPool) (port : ℕ) (p' : PortPool)
    → p.start ≤ p.end
    → select_port bindable preferred p ≡ ok (port, p')
    → Granted bindable p port p'
unfolding select_port
select_port-Granted bindable preferred p port p' h e =
    elim (Bool-cases (preferable bindable preferred p)) [
      | inl t ↦
          or_alloc-Granted bindable preferred p port p' h t (reserve preferred p) refl (rw t at e)
      | inr f ↦ alloc-Granted bindable p port p' h (rw f at e)
    ]

or_alloc_total :
    (bindable : ℕ → Bool) (preferred q : ℕ) (p : PortPool) (r : Outcome PortPool)
    → p.start ≤ q
    → q ≤ p.end
    → p.allocated q ≡ false
    → bindable q ≡ true
    → (port : ℕ) × (p' : PortPool) × (or_alloc bindable preferred p r ≡ ok (port, p'))
or_alloc_total bindable preferred q p (ok p') a b free binds = (preferred, p', refl)
or_alloc_total bindable preferred q p (err e) a b free binds =
    let t = alloc_total bindable p q a b free binds in (t.0, t.1, t.2)

-- Where some port is free and can be bound, a port is selected, whatever is preferred.
pub select_port_total :
    (bindable : ℕ → Bool) (preferred q : ℕ) (p : PortPool)
    → p.start ≤ q
    → q ≤ p.end
    → p.allocated q ≡ false
    → bindable q ≡ true
    → (port : ℕ) × (p' : PortPool) × (select_port bindable preferred p ≡ ok (port, p'))
unfolding select_port
select_port_total bindable preferred q p a b free binds =
    elim (Bool-cases (preferable bindable preferred p)) [
      | inl t ↦ rw t (or_alloc_total bindable preferred q p (reserve preferred p) a b free binds)
      | inr f ↦ rw f (or_alloc_total bindable preferred q p (err port_exhausted) a b free binds)
    ]

-- Releasing a port that was just reserved gives back the pool, port by port.
pub release-reserve :
    (port q : ℕ) (p p' : PortPool)
    → reserve port p ≡ ok p'
    → (release port p').allocated q ≡ p.allocated q
unfolding release reserve
release-reserve port q p p' e = ground arith
