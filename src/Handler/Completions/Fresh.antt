-- ===== src/Handler/Completions/Fresh.antt =====
-- Whom the loop of proxyCompletions and its kin calls.
use copilot_pool_gateway.Base.{
  ℕ, zero, suc, ◌+◌, ◌≤◌, String, ◌≡◌, refl, Bool, true, false, not, ◌&&◌, List, [], ◌∷◌, none,
  some, arith, ◌==◌, eq_iff, if◌then◌else◌, All, length,
}
use copilot_pool_gateway.Handler.Gateway.{
  Gateway, Env, Response, check_limit, is_retryable_status, disable_on_fatal_upstream,
}
use copilot_pool_gateway.Handler.Routing.{
  Reply, Caller, in_pool, as_account, is_pool, Resolved, found, refused, member, resolve_state,
}
use copilot_pool_gateway.Handler.Routing.Serves.{resolve_state_serves}
use copilot_pool_gateway.Handler.Responses.{Answer, rewrite_error, proxy_error, answered, Upstream}
use copilot_pool_gateway.Handler.Completions.{
  PlainRequest, Endpoint, Run, Next, resolve, prepend, stop, retry, check_status, after_fatal,
  on_answer, after_limit, after_resolve, attempts, proxy_completions, proxy_embeddings,
  proxy_responses_compact,
}

-- No account comes twice.
abbrev pub NoRepeat : List String → Type 0
NoRepeat [] = Unit
NoRepeat (id ∷ ids) = (member id ids ≡ false) × NoRepeat ids

record Fresh (n : ℕ) (exclude : List String) (run : Run) : Type 0 where
  untried : All (λ id. member id exclude ≡ false) run.0.0
  no_repeat : NoRepeat run.0.0
  few : length run.0.0 ≤ n

stop-Fresh :
    (n : ℕ) (exclude : List String) (id : String) (reply : Reply) (g : Gateway)
    → member id exclude ≡ false
    → Fresh (suc n) exclude (stop id reply g)
stop-Fresh n exclude id reply g h = record {
  untried = (h, tt);
  no_repeat = (refl, tt);
  few = ground arith;
}

untried_rest :
    (id : String) (exclude ids : List String)
    → All (λ i. member i (id ∷ exclude) ≡ false) ids
    → All (λ i. member i exclude ≡ false) ids × (member id ids ≡ false)
untried_rest id exclude [] h = (tt, refl)
untried_rest id exclude (i ∷ ids) h =
    ground (arith, untried_rest id exclude ids h.1, eq_iff i id, eq_iff id i)

prepend-Fresh :
    (n : ℕ) (exclude : List String) (id : String) (run : Run)
    → member id exclude ≡ false
    → Fresh n (id ∷ exclude) run
    → Fresh (suc n) exclude (prepend id run)
prepend-Fresh n exclude id run h f =
    let (u, m) = untried_rest id exclude run.0.0 f.untried in
    record { untried = (h, u); no_repeat = (m, f.no_repeat); few = ground (arith, f.few) }

FreshNext : ℕ → Next → Type 0
FreshNext n none = Unit
FreshNext n (some next) = (exclude : List String) (g : Gateway) → Fresh n exclude (next exclude g)

if_Fresh :
    (n : ℕ) (exclude : List String) (b : Bool) (x y : Run)
    → Fresh n exclude x
    → Fresh n exclude y
    → Fresh n exclude (if b then x else y)
if_Fresh n exclude true x y f g = f
if_Fresh n exclude false x y f g = g

module _ (n : ℕ) (exclude : List String) (next : Next) (f : FreshNext n next) (id : String)
    (h : member id exclude ≡ false) where
  retry-Fresh :
      (g : Gateway) (otherwise : Run)
      → Fresh (suc n) exclude otherwise
      → Fresh (suc n) exclude (retry next id exclude g otherwise)
  unfolding FreshNext
  retry-Fresh g otherwise o = go next f
    where
      go : (m : Next) → FreshNext n m → Fresh (suc n) exclude (retry m id exclude g otherwise)
      go none _ = o
      go (some m) fresh = prepend-Fresh n exclude id (m (id ∷ exclude) g) h (fresh (id ∷ exclude) g)

  stopped : (reply : Reply) (g : Gateway) → Fresh (suc n) exclude (stop id reply g)
  stopped reply g = stop-Fresh n exclude id reply g h

  check_status-Fresh :
      (env : Env) (resp : Response) (g : Gateway)
      → Fresh (suc n) exclude (check_status env next id exclude resp g)
  check_status-Fresh env resp g =
      if_Fresh (suc n) exclude (is_retryable_status resp.status) _ _ (retry-Fresh _ _ (stopped _ _))
        (stopped _ _)

  after_fatal-Fresh :
      (env : Env) (resp : Response) (r : Bool × Gateway)
      → Fresh (suc n) exclude (after_fatal env next id exclude resp r)
  after_fatal-Fresh env resp (true, g) = retry-Fresh _ _ (check_status-Fresh env resp _)
  after_fatal-Fresh env resp (false, g) = check_status-Fresh env resp g

  on_answer-Fresh :
      (e : Endpoint) (env : Env) (q : PlainRequest) (a : Answer) (g : Gateway)
      → Fresh (suc n) exclude (on_answer e env q next id exclude a g)
  unfolding on_answer
  on_answer-Fresh e env q rewrite_error g =
      if_Fresh (suc n) exclude e.rewrites _ _ (stopped _ _) (retry-Fresh _ _ (stopped _ _))
  on_answer-Fresh e env q proxy_error g = retry-Fresh _ _ (stopped _ _)
  on_answer-Fresh e env q (answered resp) g =
      after_fatal-Fresh env resp (disable_on_fatal_upstream env resp id q.model g)

  after_limit-Fresh :
      (e : Endpoint) (up : Upstream) (env : Env) (q : PlainRequest) (k : ℕ)
      (r : (Bool × ℕ) × Gateway)
      → Fresh (suc n) exclude (after_limit e up env q k next id exclude r)
  after_limit-Fresh e up env q k ((true, _), g) = on_answer-Fresh e env q (up.answer k) _
  after_limit-Fresh e up env q k ((false, _), g) = record {
    untried = tt;
    no_repeat = tt;
    few = ground arith;
  }

after_resolve-Fresh :
    (n : ℕ) (exclude : List String) (next : Next) (f : FreshNext n next) (e : Endpoint)
    (up : Upstream) (env : Env) (q : PlainRequest) (k : ℕ) (r : Resolved × Gateway)
    → ((id : String) → r.0 ≡ found id → member id exclude ≡ false)
    → Fresh (suc n) exclude (after_resolve e up env q k next exclude r)
after_resolve-Fresh n exclude next f e up env q k (refused code text, g) h = record {
  untried = tt;
  no_repeat = tt;
  few = ground arith;
}
after_resolve-Fresh n exclude next f e up env q k (found id, g) h =
    after_limit-Fresh n exclude next f id (h id refl) e up env q k (check_limit env id g)

-- The endpoint takes the accounts of a request of the pool by resolveState.
abbrev FromPool : Endpoint → PlainRequest → Type 0
FromPool e q =
    (is_pool q.caller ≡ true) × ((e.replays && not (q.previous_response_id == "")) ≡ false)

resolve-untried :
    (e : Endpoint) (env : Env) (q : PlainRequest) (exclude : List String) (g : Gateway)
    (id : String)
    → FromPool e q
    → (resolve e env q exclude g).0 ≡ found id
    → member id exclude ≡ false
resolve-untried e env q exclude g id (p, r) h = go q.caller p (rw r at h)
  where
    go :
        (c : Caller)
        → is_pool c ≡ true
        → (resolve_state env c "" exclude q.model g).0 ≡ found id
        → member id exclude ≡ false
    go (in_pool strategy) _ found_id =
        (resolve_state_serves env strategy "" q.model exclude g id found_id).0
    go (as_account a) x _ = absurd (ground (arith, x))

attempts-Fresh :
    (n : ℕ) (e : Endpoint) (up : Upstream) (env : Env) (q : PlainRequest) (k : ℕ)
    (exclude : List String) (g : Gateway)
    → FromPool e q
    → Fresh (suc n) exclude (attempts n e up env q k exclude g)
unfolding attempts FreshNext
attempts-Fresh zero e up env q k exclude g p =
    after_resolve-Fresh zero exclude none tt e up env q k _
      (λ id h. resolve-untried e env q exclude g id p h)
attempts-Fresh (suc n) e up env q k exclude g p =
    after_resolve-Fresh (suc n) exclude (some (attempts n e up env q (k + 1)))
      (λ exclude' g'. attempts-Fresh n e up env q (k + 1) exclude' g' p) e up env q k _
      (λ id h. resolve-untried e env q exclude g id p h)

untried_calls :
    (n : ℕ) (exclude : List String) (run : Run)
    → Fresh n exclude run
    → NoRepeat run.0.0 × (length run.0.0 ≤ n)
untried_calls n exclude run f = (f.no_repeat, f.few)

-- A request of the pool that names no previous response is sent to at most 3 accounts, and to none
-- of them twice, by each of the three handlers.
pub attempts-NoRepeat :
    (up : Upstream) (env : Env) (q : PlainRequest) (g : Gateway)
    → is_pool q.caller ≡ true
    → (q.previous_response_id == "") ≡ true
    → (NoRepeat (proxy_completions up env q g).0.0
        × (length (proxy_completions up env q g).0.0 ≤ 3))
      × (NoRepeat (proxy_embeddings up env q g).0.0
          × (length (proxy_embeddings up env q g).0.0 ≤ 3))
      × (NoRepeat (proxy_responses_compact up env q g).0.0
          × (length (proxy_responses_compact up env q g).0.0 ≤ 3))
unfolding proxy_completions proxy_embeddings proxy_responses_compact
attempts-NoRepeat up env q g p r = rw p (
  untried_calls 3 [] _ (
      attempts-Fresh 2 (record { replays = true; rewrites = true }) up env q 0 [] g (p, rw r refl)),
  untried_calls 3 [] _ (
      attempts-Fresh 2 (record { replays = true; rewrites = false }) up env q 0 [] g
        (p, rw r refl)),
  untried_calls 3 [] _
      (attempts-Fresh 2 (record { replays = false; rewrites = true }) up env q 0 [] g (p, refl)),
)
