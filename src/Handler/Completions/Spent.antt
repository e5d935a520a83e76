-- ===== src/Handler/Completions/Spent.antt =====
-- When the loop of proxyCompletions and its kin passes an error on.
use copilot_pool_gateway.Base.{
  ℕ, zero, suc, ◌+◌, String, ◌≡◌, refl, subst, ◌∙◌, Bool, true, false, List, [], ◌∷◌, none, some,
  arith, if◌then◌else◌, length,
}
use copilot_pool_gateway.Handler.Gateway.{
  Gateway, Env, Response, check_limit, is_retryable_status, disable_on_fatal_upstream,
}
use copilot_pool_gateway.Handler.Routing.{
  Reply, failure, forwarded, is_pool, Resolved, found, refused,
}
use copilot_pool_gateway.Handler.Responses.{Answer, rewrite_error, proxy_error, answered, Upstream}
use copilot_pool_gateway.Handler.Completions.{
  PlainRequest, Endpoint, Run, Next, prepend, retry, check_status, after_fatal, on_answer,
  after_limit, after_resolve, attempts, more_attempts, proxy_completions,
}

-- A reply that forwards a status to retry comes after `n` calls.
abbrev SpentReply : ℕ → List String → Reply → Type 0
SpentReply n calls (failure status text) = Unit
SpentReply n calls (forwarded id status) = is_retryable_status status ≡ true → length calls ≡ n

abbrev Spent : ℕ → Run → Type 0
Spent n ((calls, reply), g) = SpentReply n calls reply

SpentNext : ℕ → Next → Type 0
SpentNext n none = n ≡ 0
SpentNext n (some next) = (exclude : List String) (g : Gateway) → Spent n (next exclude g)

prepend-Spent : (n : ℕ) (id : String) (run : Run) → Spent n run → Spent (suc n) (prepend id run)
prepend-Spent n id ((calls, failure status text), g) s = tt
prepend-Spent n id ((calls, forwarded other status), g) s = λ h. ground (arith, s h)

if_Spent :
    (n : ℕ) (b : Bool) (x y : Run)
    → (b ≡ true → Spent n x)
    → (b ≡ false → Spent n y)
    → Spent n (if b then x else y)
if_Spent n true x y f g = f refl
if_Spent n false x y f g = g refl

module _ (n : ℕ) (exclude : List String) (next : Next) (f : SpentNext n next) (id : String) where
  retry-Spent :
      (g : Gateway) (otherwise : Run)
      → (n ≡ 0 → Spent (suc n) otherwise)
      → Spent (suc n) (retry next id exclude g otherwise)
  unfolding SpentNext
  retry-Spent g otherwise o = go next f
    where
      go : (m : Next) → SpentNext n m → Spent (suc n) (retry m id exclude g otherwise)
      go none e = o e
      go (some m) spent = prepend-Spent n id (m (id ∷ exclude) g) (spent (id ∷ exclude) g)

  check_status-Spent :
      (env : Env) (resp : Response) (g : Gateway)
      → Spent (suc n) (check_status env next id exclude resp g)
  check_status-Spent env resp g =
      if_Spent (suc n) (is_retryable_status resp.status) _ _
        (λ _. retry-Spent _ _ (λ e _. ground (arith, e))) (λ e h. absurd (ground (arith, e, h)))

  after_fatal-Spent :
      (env : Env) (resp : Response) (r : Bool × Gateway)
      → Spent (suc n) (after_fatal env next id exclude resp r)
  after_fatal-Spent env resp (true, g) = retry-Spent _ _ (λ _. check_status-Spent env resp _)
  after_fatal-Spent env resp (false, g) = check_status-Spent env resp g

  on_answer-Spent :
      (e : Endpoint) (env : Env) (q : PlainRequest) (a : Answer) (g : Gateway)
      → Spent (suc n) (on_answer e env q next id exclude a g)
  unfolding on_answer
  on_answer-Spent e env q rewrite_error g =
      if_Spent (suc n) e.rewrites _ _ (λ _. tt) (λ _. retry-Spent _ _ (λ _. tt))
  on_answer-Spent e env q proxy_error g = retry-Spent _ _ (λ _. tt)
  on_answer-Spent e env q (answered resp) g =
      after_fatal-Spent env resp (disable_on_fatal_upstream env resp id q.model g)

  after_limit-Spent :
      (e : Endpoint) (up : Upstream) (env : Env) (q : PlainRequest) (k : ℕ)
      (r : (Bool × ℕ) × Gateway)
      → Spent (suc n) (after_limit e up env q k next id exclude r)
  after_limit-Spent e up env q k ((true, _), g) = on_answer-Spent e env q (up.answer k) _
  after_limit-Spent e up env q k ((false, _), g) = tt

after_resolve-Spent :
    (n : ℕ) (exclude : List String) (next : Next) (f : SpentNext n next) (e : Endpoint)
    (up : Upstream) (env : Env) (q : PlainRequest) (k : ℕ) (r : Resolved × Gateway)
    → Spent (suc n) (after_resolve e up env q k next exclude r)
after_resolve-Spent n exclude next f e up env q k (refused code text, g) = tt
after_resolve-Spent n exclude next f e up env q k (found id, g) =
    after_limit-Spent n exclude next f id e up env q k (check_limit env id g)

attempts-Spent :
    (n : ℕ) (e : Endpoint) (up : Upstream) (env : Env) (q : PlainRequest) (k : ℕ)
    (exclude : List String) (g : Gateway)
    → Spent (suc n) (attempts n e up env q k exclude g)
unfolding attempts SpentNext
attempts-Spent zero e up env q k exclude g =
    after_resolve-Spent zero exclude none refl e up env q k _
attempts-Spent (suc n) e up env q k exclude g =
    after_resolve-Spent (suc n) exclude (some (attempts n e up env q (k + 1)))
      (λ exclude' g'. attempts-Spent n e up env q (k + 1) exclude' g') e up env q k _

-- An upstream's status that is worth a retry reaches the client of proxyCompletions only when the
-- upstream was called as often as it may be: 3 times for the pool, once for an account.
pub proxy_completions-spent :
    (up : Upstream) (env : Env) (q : PlainRequest) (g : Gateway) (id : String) (status : ℕ)
    → (proxy_completions up env q g).0.1 ≡ forwarded id status
    → is_retryable_status status ≡ true
    → length (proxy_completions up env q g).0.0 ≡ (if is_pool q.caller then 3 else 1)
unfolding proxy_completions
proxy_completions-spent up env q g id status e h =
    subst (SpentReply (suc (more_attempts q.caller)) (proxy_completions up env q g).0.0) e
      (attempts-Spent (more_attempts q.caller) (record { replays = true; rewrites = true }) up env q
        0 [] g)
      h
    ∙ ground arith
