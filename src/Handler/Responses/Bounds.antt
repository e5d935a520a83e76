-- ===== src/Handler/Responses/Bounds.antt =====
-- How often proxyResponses calls the upstream, and for whom.
use copilot_pool_gateway.Base.{
  ℕ, ◌+◌, ◌-◌, ◌<◌, String, ◌≡◌, refl, Bool, true, false, not, ◌&&◌, List, [], ◌∷◌, Option, none,
  some, arith, eq_refl, if◌then◌else◌, ltb, eqb,
}
use copilot_pool_gateway.Handler.Gateway.{
  Gateway, Env, Response, is_retryable_status, disable_on_fatal_upstream,
}
use copilot_pool_gateway.Handler.Routing.{member, is_pool}
use copilot_pool_gateway.Handler.Recovery.{OrphanTranslateRoute, resolve_orphan_recovery_state}
use copilot_pool_gateway.Handler.Responses.{
  Request, Answer, Upstream, Mode, Call, Turn, is_armed, Step, attempts_left, excluding,
  rewrite_error, proxy_error, answered, stop, again, detached_cross, detached_same,
}
use copilot_pool_gateway.Handler.Responses.Answers.{
  retried, on_proxy_error, read_replay_invalid_response, with_degraded_body, with_recovery,
  on_replay_invalid, check_retryable, after_refresh, check_unauthorized, after_disabling, on_answer,
}

-- The attempts that the turn may still make: those that are left, and one for each bonus that it has
-- not had, of the refresh of a token and of the recovery.
abbrev pub refresh_bonus : Option String → List String → ℕ
refresh_bonus none refreshed = 1
refresh_bonus (some id) refreshed = if member id refreshed then 0 else 1

abbrev pub budget : Turn → ℕ
budget t =
    (t.attempt_limit - t.attempt)
    + (refresh_bonus t.same_turn_pinned t.refreshed_on_account
        + (if t.orphan_degraded then 0 else 1))

abbrev pub NoneOr : String → Option String → Type 0
NoneOr id none = Unit
NoneOr id (some other) = other ≡ id

abbrev pub is_some : Option String → Bool
is_some none = false
is_some (some id) = true

-- A turn that has chosen the account `id`: all its pins are that account's, it asks the bound
-- account while it continues, and it never rolls over.
pub record Pinned (id : String) (t : Turn) : Type 0 where
  pub same_turn : t.same_turn_pinned ≡ some id
  pub one_shot : NoneOr id t.pinned_account
  pub bound : NoneOr id t.continuation_pinned
  pub continues : (t.continuation_requested && not (is_some t.continuation_pinned)) ≡ false
  pub no_rollover : t.cross_account_rollover ≡ false

abbrev pub is_detached : Mode → Bool
is_detached detached_cross = true
is_detached detached_same = true
is_detached _ = false

-- A call for `id`, which is not one of the detached modes.
abbrev pub Fits : String → Call → Type 0
Fits id c = (c.account_id ≡ id) × (is_detached c.mode ≡ false)

-- What an attempt on `id` leaves: the next turn is still pinned, has an attempt, and spent budget.
pub record Continues (id : String) (t : Turn) (c : Call) (t' : Turn) : Type 0 where
  pub pinned : Pinned id t'
  pub left : ltb t'.attempt t'.attempt_limit ≡ true
  pub spent : budget t' < budget t
  pub fits : Fits id c

abbrev pub Proceeds : String → Turn → Step → Type 0
Proceeds id t (stop [] reply) = Unit
Proceeds id t (stop (c ∷ cs) reply) = Fits id c × (cs ≡ [])
Proceeds id t (again c t') = Continues id t c t'

if_Proceeds :
    (id : String) (t : Turn) (b : Bool) (x y : Step × Gateway)
    → (b ≡ true → Proceeds id t x.0)
    → (b ≡ false → Proceeds id t y.0)
    → Proceeds id t (if b then x else y).0
if_Proceeds id t true x y f g = f refl
if_Proceeds id t false x y f g = g refl

module _ (id : String) (t : Turn) (call : Call) (h : ltb t.attempt t.attempt_limit ≡ true)
    (p : Pinned id t) (same : Fits id call) where
  excluding-Continues : attempts_left t ≡ true → Continues id t call (excluding call.account_id t)
  excluding-Continues e = ground arith

  with_degraded_body-Continues :
      t.orphan_degraded ≡ false
      → attempts_left t ≡ true
      → Continues id t call (with_degraded_body call t)
  with_degraded_body-Continues d e = ground arith

  with_recovery-Continues :
      (route : OrphanTranslateRoute)
      → t.orphan_degraded ≡ false
      → Continues id t call (with_recovery route call t)
  with_recovery-Continues route d = ground arith

  after_refresh-Continues :
      (b : Bool) (q : Request)
      → member call.account_id t.refreshed_on_account ≡ false
      → attempts_left t ≡ true
      → Continues id t call (after_refresh b q false call t)
  after_refresh-Continues true q d e = ground (arith, eq_refl id)
  after_refresh-Continues false q d e = ground (arith, eq_refl id)

  retried-Proceeds :
      (q : Request) (g : Gateway) (otherwise : Step × Gateway)
      → attempts_left t ≡ true
      → Proceeds id t otherwise.0
      → Proceeds id t (retried q false call t g otherwise).0
  retried-Proceeds q g otherwise e o =
      if_Proceeds id t (t.continuation_requested && (false && is_pool q.caller)) _ _
        (λ x. absurd (ground arith))
        (λ _.
          if_Proceeds id t (not t.continuation_requested) _ _ (λ _. excluding-Continues e) (λ _. o))

  on_proxy_error-Proceeds :
      (env : Env) (q : Request) (g : Gateway)
      → Proceeds id t (on_proxy_error env q false call t g).0
  unfolding on_proxy_error
  on_proxy_error-Proceeds env q g =
      if_Proceeds id t (attempts_left t) _ _ (λ e. retried-Proceeds q _ _ e (same, refl))
        (λ _. (same, refl))

  on_replay_invalid-Proceeds :
      (env : Env) (q : Request) (g : Gateway)
      → Proceeds id t (on_replay_invalid env q false call t g).0
  unfolding on_replay_invalid
  on_replay_invalid-Proceeds env q g =
      if_Proceeds id t
        (t.continuation_requested && (false && (attempts_left t && is_pool q.caller))) _ _
        (λ x. absurd (ground arith))
        (λ _.
          if_Proceeds id t
            (t.degrade_opt_in && (not t.orphan_degraded && (attempts_left t && q.degrades))) _ _
            (λ e. with_degraded_body-Continues (ground arith) (ground arith))
            (λ _.
              if_Proceeds id t
                (not t.orphan_degraded
                  && (not (is_armed t.recovery)
                      && is_armed (resolve_orphan_recovery_state env q.caller q.model t.exclude g)))
                _ _ (λ e. with_recovery-Continues _ (ground arith))
                (λ _.
                  if_Proceeds id t (is_armed t.recovery && (is_pool q.caller && attempts_left t)) _
                    _ (λ e. excluding-Continues (ground arith)) (λ _. (same, refl)))))

  check_retryable-Proceeds :
      (env : Env) (q : Request) (resp : Response) (g : Gateway)
      → Proceeds id t (check_retryable env q false call resp t g).0
  unfolding check_retryable
  check_retryable-Proceeds env q resp g =
      if_Proceeds id t (is_retryable_status resp.status && attempts_left t) _ _
        (λ e. retried-Proceeds q _ _ (ground arith) (same, refl)) (λ _. (same, refl))

  check_unauthorized-Proceeds :
      (up : Upstream) (env : Env) (q : Request) (resp : Response) (g : Gateway)
      → Proceeds id t (check_unauthorized up env q false call resp t g).0
  unfolding check_unauthorized
  check_unauthorized-Proceeds up env q resp g =
      if_Proceeds id t
        (eqb resp.status 401
          && (not (member call.account_id t.refreshed_on_account) && attempts_left t))
        _ _ (λ e. after_refresh-Continues _ q (ground arith) (ground arith))
        (λ _. check_retryable-Proceeds env q resp g)

  after_disabling-Proceeds :
      (up : Upstream) (env : Env) (q : Request) (resp : Response) (r : Bool × Gateway)
      → Proceeds id t (after_disabling up env q false call resp t r).0
  after_disabling-Proceeds up env q resp (true, g) =
      if_Proceeds id t (attempts_left t) _ _
        (λ e. retried-Proceeds q _ _ e (check_unauthorized-Proceeds up env q resp _))
        (λ _. check_unauthorized-Proceeds up env q resp _)
  after_disabling-Proceeds up env q resp (false, g) = check_unauthorized-Proceeds up env q resp g

  pub on_answer-Proceeds :
      (up : Upstream) (env : Env) (q : Request) (a : Answer) (g : Gateway)
      → Proceeds id t (on_answer up env q false call a t g).0
  unfolding on_answer
  on_answer-Proceeds up env q rewrite_error g = (same, refl)
  on_answer-Proceeds up env q proxy_error g = on_proxy_error-Proceeds env q g
  on_answer-Proceeds up env q (answered resp) g =
      if_Proceeds id t (read_replay_invalid_response resp) _ _
        (λ _. on_replay_invalid-Proceeds env q _)
        (λ _.
          after_disabling-Proceeds up env q resp
            (disable_on_fatal_upstream env resp call.account_id q.model g))
