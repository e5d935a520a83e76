-- ===== src/Instance/Supervisor/Table.antt =====
-- The table of workers, and which ports its entries use.
use copilot_pool_gateway.Base.{
  ℕ, String, ◌≡◌, refl, Bool, true, false, ◌||◌, [], ◌∷◌, none, some, arith, eq_iff, if◌then◌else◌,
  eqb, eqb_iff, exists,
}
use copilot_pool_gateway.Base.StringMap.{StringMap, get, put, remove, Distinct}
use copilot_pool_gateway.Instance.Supervisor.{Worker}

abbrev pub on_port : ℕ → String × Worker → Bool
on_port p (id, w) = eqb w.entry.port p

-- Some worker has the port.
abbrev pub port_used : ℕ → StringMap Worker → Bool
port_used p = exists (on_port p)

-- No two workers have the same port.
abbrev pub PortsApart : StringMap Worker → Type 0
PortsApart [] = Unit
PortsApart ((id, w) ∷ rest) = (port_used w.entry.port rest ≡ false) × PortsApart rest

-- Each worker's entry names the account that it is filed under.
abbrev pub Named : StringMap Worker → Type 0
Named [] = Unit
Named ((id, w) ∷ rest) = (w.entry.account_id ≡ id) × Named rest

pub used-put_new :
    (p : ℕ) (ws : StringMap Worker) (id : String) (w : Worker)
    → get ws id ≡ none
    → port_used p (put ws id w) ≡ (port_used p ws || eqb w.entry.port p)
unfolding get put
used-put_new p [] id w h = ground arith
used-put_new p ((j, v) ∷ rest) id w h = ground (arith, used-put_new p rest id w)

pub apart-put_new :
    (ws : StringMap Worker) (id : String) (w : Worker)
    → get ws id ≡ none
    → port_used w.entry.port ws ≡ false
    → PortsApart ws
    → PortsApart (put ws id w)
unfolding get put
apart-put_new [] id w h free a = (refl, tt)
apart-put_new ((j, v) ∷ rest) id w h free a =
    ground (arith, apart-put_new rest id w, used-put_new v.entry.port rest id w, a.1)

pub used-put_same :
    (p : ℕ) (ws : StringMap Worker) (id : String) (v w : Worker)
    → get ws id ≡ some v
    → w.entry.port ≡ v.entry.port
    → port_used p (put ws id w) ≡ port_used p ws
unfolding get put
used-put_same p [] id v w h e = absurd (ground arith)
used-put_same p ((j, u) ∷ rest) id v w h e = ground (arith, used-put_same p rest id v w)

pub apart-put_same :
    (ws : StringMap Worker) (id : String) (v w : Worker)
    → get ws id ≡ some v
    → w.entry.port ≡ v.entry.port
    → PortsApart ws
    → PortsApart (put ws id w)
unfolding get put
apart-put_same [] id v w h e a = absurd (ground arith)
apart-put_same ((j, u) ∷ rest) id v w h e a =
    ground (arith, apart-put_same rest id v w, used-put_same u.entry.port rest id v w, a.1)

pub used_of_get :
    (ws : StringMap Worker) (id : String) (v : Worker)
    → get ws id ≡ some v
    → port_used v.entry.port ws ≡ true
unfolding get
used_of_get [] id v h = absurd (ground arith)
used_of_get ((j, u) ∷ rest) id v h = ground (arith, used_of_get rest id v)

remove_missing : (ws : StringMap Worker) (id : String) → get ws id ≡ none → remove ws id ≡ ws
unfolding get remove
remove_missing [] id h = refl
remove_missing ((j, u) ∷ rest) id h = ground (arith, remove_missing rest id)

pub used-remove :
    (p : ℕ) (ws : StringMap Worker) (id : String) (v : Worker)
    → Distinct ws
    → PortsApart ws
    → get ws id ≡ some v
    → port_used p (remove ws id) ≡ (if eqb v.entry.port p then false else port_used p ws)
unfolding get remove
used-remove p [] id v d a h = absurd (ground arith)
used-remove p ((j, u) ∷ rest) id v d a h = ground (
  arith,
  used-remove p rest id v d.1 a.1,
  remove_missing rest j d.0,
  used_of_get rest id v,
  eq_iff j id,
  eqb_iff v.entry.port p,
)

pub apart-remove :
    (ws : StringMap Worker) (id : String) (v : Worker)
    → Distinct ws
    → PortsApart ws
    → get ws id ≡ some v
    → PortsApart (remove ws id)
unfolding get remove
apart-remove [] id v d a h = tt
apart-remove ((j, u) ∷ rest) id v d a h = ground (
  arith,
  apart-remove rest id v d.1 a.1,
  remove_missing rest j d.0,
  used-remove u.entry.port rest id v d.1 a.1,
  eq_iff j id,
)

pub put-Named :
    (ws : StringMap Worker) (id : String) (w : Worker)
    → w.entry.account_id ≡ id
    → Named ws
    → Named (put ws id w)
unfolding put
put-Named [] id w e n = (e, tt)
put-Named ((j, u) ∷ rest) id w e n = ground (arith, put-Named rest id w e n.1, eq_iff j id)

pub remove-Named : (ws : StringMap Worker) (id : String) → Named ws → Named (remove ws id)
unfolding remove
remove-Named [] id n = tt
remove-Named ((j, u) ∷ rest) id n = ground (arith, remove-Named rest id n.1)

pub get-Named :
    (ws : StringMap Worker) (id : String) (w : Worker)
    → Named ws
    → get ws id ≡ some w
    → w.entry.account_id ≡ id
unfolding get
get-Named [] id w n h = absurd (ground arith)
get-Named ((j, u) ∷ rest) id w n h = ground (arith, get-Named rest id w n.1, eq_iff j id)
