-- ===== src/Handler/Messages/Detached.antt =====
-- Which accounts proxyMessages calls, and how.
use copilot_pool_gateway.Base.{
  ℕ, suc, ◌≤◌, String, ◌≡◌, refl, Bool, true, false, not, ◌||◌, ◌&&◌, List, [], ◌∷◌, none, some,
  arith, ◌==◌, eq_iff, if◌then◌else◌, All, length,
}
use copilot_pool_gateway.Handler.Gateway.{
  Gateway, Env, Response, is_retryable_status, disable_on_fatal_upstream,
}
use copilot_pool_gateway.Handler.Routing.{is_pool, member}
use copilot_pool_gateway.Handler.Responses.{Answer, rewrite_error, proxy_error, answered}
use copilot_pool_gateway.Handler.Responses.Answers.{read_replay_invalid_response}
use copilot_pool_gateway.Handler.Messages.{
  continues, MessagesRequest, MessagesTurn, Call, Run, Next, same_account, other_account, excluding,
}
use copilot_pool_gateway.Handler.Messages.Loop.{
  go_on, should_retry_same, to_other, to_same_or_other, check_status, after_fatal,
  on_replay_invalid, on_answer,
}

-- The same account in the same mode.
abbrev pub same_call : Call → Call → Bool
same_call (a, d) (b, e) = a == b && (if d then e else not e)

abbrev pub called : Call → List Call → Bool
called c [] = false
called c (d ∷ calls) = same_call c d || called c calls

abbrev pub NoRepeat : List Call → Type 0
NoRepeat [] = Unit
NoRepeat (c ∷ calls) = (called c calls ≡ false) × NoRepeat calls

-- Only detached calls are left to a continuation.
abbrev pub only_detached : MessagesRequest → MessagesTurn → Bool
only_detached q t = continues q && (t.cross_account_rollover || not (t.retry_account_id == ""))

abbrev pub is_none : List String → Bool
is_none [] = true
is_none (id ∷ ids) = false

-- Between attempts.
pub record Sound (q : MessagesRequest) (t : MessagesTurn) : Type 0 where
  pub bound : (continues q && (not t.cross_account_rollover && not (is_none t.exclude))) ≡ false
  pub retry :
      (not (t.retry_account_id == "") && (t.cross_account_rollover || not (continues q))) ≡ false

-- The calls of the rest of a run.
pub record Fits (q : MessagesRequest) (t : MessagesTurn) (n : ℕ) (calls : List Call) : Type 0 where
  pub untried : All (λ c. member c.0 t.exclude ≡ false) calls
  pub detached : All (λ c. (only_detached q t && not c.1) ≡ false) calls
  pub no_repeat : NoRepeat calls
  pub few : length calls ≤ n

-- What an attempt knows of its call.
pub record Chosen (q : MessagesRequest) (t : MessagesTurn) (c : Call) (replay_bound : Bool)
    : Type 0 where
  pub untried : member c.0 t.exclude ≡ false
  pub detached : (only_detached q t && not c.1) ≡ false
  pub bound : (replay_bound && (not (continues q) || t.cross_account_rollover)) ≡ false

pub none_Fits : (q : MessagesRequest) (t : MessagesTurn) (n : ℕ) → Fits q t n []
none_Fits q t n = record { untried = tt; detached = tt; no_repeat = tt; few = omega arith }

stop_Fits :
    (q : MessagesRequest) (t : MessagesTurn) (n : ℕ) (c : Call) (b : Bool)
    → Chosen q t c b
    → Fits q t (suc n) (c ∷ [])
stop_Fits q t n c b h = record {
  untried = (h.untried, tt);
  detached = (h.detached, tt);
  no_repeat = (refl, tt);
  few = ground arith;
}

-- After a call for `id`, which is then excluded.
pub excluded_rest :
    (id : String) (d : Bool) (exclude : List String) (calls : List Call)
    → All (λ c. member c.0 (id ∷ exclude) ≡ false) calls
    → All (λ c. member c.0 exclude ≡ false) calls × (called (id, d) calls ≡ false)
excluded_rest id d exclude [] h = (tt, refl)
excluded_rest id d exclude (c ∷ calls) h =
    ground (arith, excluded_rest id d exclude calls h.1, eq_iff id c.0, eq_iff c.0 id)

-- After a call that was not detached, where only detached ones are left.
detached_rest :
    (id : String) (d : Bool) (calls : List Call)
    → d ≡ false
    → All (λ c. c.1 ≡ true) calls
    → called (id, d) calls ≡ false
detached_rest id d [] e h = refl
detached_rest id d ((a, d') ∷ calls) e h = ground (arith, detached_rest id d calls e h.1, h.0, e)

pub weaken :
    (b d : Bool) (calls : List Call)
    → (b ≡ true → d ≡ true)
    → All (λ c. (d && not c.1) ≡ false) calls
    → All (λ c. (b && not c.1) ≡ false) calls
weaken b d [] f h = tt
weaken b d (c ∷ calls) f h = (ground (arith, f, h.0), weaken b d calls f h.1)

detached_if_only :
    (b : Bool) (calls : List Call)
    → b ≡ true
    → All (λ c. (b && not c.1) ≡ false) calls
    → All (λ c. c.1 ≡ true) calls
detached_if_only b [] e h = tt
detached_if_only b (c ∷ calls) e h = (ground (arith, e, h.0), detached_if_only b calls e h.1)

module _ (q : MessagesRequest) (t : MessagesTurn) (n : ℕ) (c : Call) (b : Bool) (s : Sound q t)
    (h : Chosen q t c b) where
  same_account-Fits :
      (calls : List Call)
      → should_retry_same q b c ≡ true
      → Fits q (same_account c.0 t) n calls
      → Fits q t (suc n) (c ∷ calls)
  same_account-Fits calls e f = record {
    untried = (h.untried, f.untried);
    detached = (
      h.detached,
      weaken (only_detached q t) (only_detached q (same_account c.0 t)) calls
          (λ x. ground (arith, e)) f.detached,
    );
    no_repeat = (
      detached_rest c.0 c.1 calls (ground (arith, e)) (
          detached_if_only (only_detached q (same_account c.0 t)) calls (ground (arith, e))
            f.detached),
      f.no_repeat,
    );
    few = ground (arith, f.few);
  }

  other_account-Fits :
      (calls : List Call) → Fits q (other_account c.0 t) n calls → Fits q t (suc n) (c ∷ calls)
  other_account-Fits calls f =
      let (u, m) = excluded_rest c.0 c.1 t.exclude calls f.untried in
      record {
        untried = (h.untried, u);
        detached = (
          h.detached,
          weaken (only_detached q t) (only_detached q (other_account c.0 t)) calls
              (λ x. ground (arith, x)) f.detached,
        );
        no_repeat = (m, f.no_repeat);
        few = ground (arith, f.few);
      }

  excluding-Fits :
      (calls : List Call) → Fits q (excluding c.0 t) n calls → Fits q t (suc n) (c ∷ calls)
  excluding-Fits calls f =
      let (u, m) = excluded_rest c.0 c.1 t.exclude calls f.untried in
      record {
        untried = (h.untried, u);
        detached = (h.detached, f.detached);
        no_repeat = (m, f.no_repeat);
        few = ground (arith, f.few);
      }

  same_account-Sound : should_retry_same q b c ≡ true → Sound q (same_account c.0 t)
  same_account-Sound e = record { bound = s.bound; retry = ground (arith, e, h.bound) }

  other_account-Sound : Sound q (other_account c.0 t)
  other_account-Sound = record { bound = ground arith; retry = refl }

  excluding-Sound : continues q ≡ false → Sound q (excluding c.0 t)
  excluding-Sound e = record { bound = ground (arith, e); retry = s.retry }

unfoldable pub FitsNext : MessagesRequest → ℕ → Next → Type 0
FitsNext q n none = Unit
FitsNext q n (some next) = (t : MessagesTurn) (g : Gateway) → Sound q t → Fits q t n (next t g).0.0

if_Fits :
    (q : MessagesRequest) (t : MessagesTurn) (n : ℕ) (b : Bool) (x y : Run)
    → (b ≡ true → Fits q t n x.0.0)
    → (b ≡ false → Fits q t n y.0.0)
    → Fits q t n (if b then x else y).0.0
if_Fits q t n true x y f g = f refl
if_Fits q t n false x y f g = g refl

module _ (q : MessagesRequest) (t : MessagesTurn) (n : ℕ) (next : Next) (f : FitsNext q n next)
    (c : Call) (b : Bool) (s : Sound q t) (h : Chosen q t c b) where
  go_on-Fits :
      (t' : MessagesTurn) (g : Gateway) (otherwise : Run)
      → Sound q t'
      → ((calls : List Call) → Fits q t' n calls → Fits q t (suc n) (c ∷ calls))
      → Fits q t (suc n) otherwise.0.0
      → Fits q t (suc n) (go_on next c t' g otherwise).0.0
  unfolding FitsNext
  go_on-Fits t' g otherwise sound step o = go next f
    where
      go : (m : Next) → FitsNext q n m → Fits q t (suc n) (go_on m c t' g otherwise).0.0
      go none _ = o
      go (some m) fits = step _ (fits t' g sound)

  stopped : Fits q t (suc n) (c ∷ [])
  stopped = stop_Fits q t n c b h

  to_other-Fits :
      (g : Gateway) (otherwise : Run)
      → Fits q t (suc n) otherwise.0.0
      → Fits q t (suc n) (to_other q next c t g otherwise).0.0
  to_other-Fits g otherwise o =
      if_Fits q t (suc n) (continues q && is_pool q.caller) _ _
        (λ _.
          go_on-Fits _ g otherwise (other_account-Sound q t n c b s h)
            (other_account-Fits q t n c b s h) o)
        (λ _.
          if_Fits q t (suc n) (not (continues q)) _ _
            (λ e.
              go_on-Fits _ g otherwise (excluding-Sound q t n c b s h (ground (arith, e)))
                (excluding-Fits q t n c b s h) o)
            (λ _. o))

  to_same_or_other-Fits :
      (g : Gateway) (otherwise : Run)
      → Fits q t (suc n) otherwise.0.0
      → Fits q t (suc n) (to_same_or_other q b next c t g otherwise).0.0
  to_same_or_other-Fits g otherwise o =
      if_Fits q t (suc n) (should_retry_same q b c) _ _
        (λ e.
          go_on-Fits _ g otherwise (same_account-Sound q t n c b s h e)
            (λ calls. same_account-Fits q t n c b s h calls e) o)
        (λ _. to_other-Fits g otherwise o)

  check_status-Fits :
      (env : Env) (resp : Response) (g : Gateway)
      → Fits q t (suc n) (check_status env q b next c t resp g).0.0
  check_status-Fits env resp g =
      if_Fits q t (suc n) (is_retryable_status resp.status) _ _
        (λ _. to_same_or_other-Fits _ _ stopped) (λ _. stopped)

  after_fatal-Fits :
      (env : Env) (resp : Response) (r : Bool × Gateway)
      → Fits q t (suc n) (after_fatal env q b next c t resp r).0.0
  after_fatal-Fits env resp (true, g) = to_other-Fits _ _ (check_status-Fits env resp _)
  after_fatal-Fits env resp (false, g) = check_status-Fits env resp g

  on_replay_invalid-Fits :
      (env : Env) (g : Gateway) → Fits q t (suc n) (on_replay_invalid env q b next c t g).0.0
  on_replay_invalid-Fits env g =
      if_Fits q t (suc n) (should_retry_same q b c) _ _
        (λ e.
          go_on-Fits _ g _ (same_account-Sound q t n c b s h e)
            (λ calls. same_account-Fits q t n c b s h calls e) stopped)
        (λ _.
          if_Fits q t (suc n) (is_pool q.caller) _ _
            (λ _.
              go_on-Fits _ g _ (other_account-Sound q t n c b s h)
                (other_account-Fits q t n c b s h) stopped)
            (λ _. stopped))

  pub on_answer-Fits :
      (env : Env) (a : Answer) (g : Gateway) → Fits q t (suc n) (on_answer env q b next c t a g).0.0
  unfolding on_answer
  on_answer-Fits env rewrite_error g = stopped
  on_answer-Fits env proxy_error g = to_same_or_other-Fits _ _ stopped
  on_answer-Fits env (answered resp) g =
      if_Fits q t (suc n) (continues q && read_replay_invalid_response resp) _ _
        (λ _. on_replay_invalid-Fits env _)
        (λ _. after_fatal-Fits env resp (disable_on_fatal_upstream env resp c.0 q.model g))
