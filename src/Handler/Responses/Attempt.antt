-- ===== src/Handler/Responses/Attempt.antt =====
-- handler/proxy.go: one attempt of proxyResponses.
use copilot_pool_gateway.Base.{
  ℕ, String, Bool, true, false, not, ◌&&◌, [], Option, none, some, ◌==◌, if◌then◌else◌,
}
use copilot_pool_gateway.Instance.Replay.{can_replay_responses_continuation}
use copilot_pool_gateway.Handler.Gateway.{Gateway, Env, note_request, check_limit}
use copilot_pool_gateway.Handler.Routing.{failure, Resolved, found, refused, resolve_state}
use copilot_pool_gateway.Handler.Recovery.{no_route, chat, messages}
use copilot_pool_gateway.Handler.Responses.{
  Request, Upstream, Mode, Call, Turn, is_armed, Step, direct, detached_cross, detached_same,
  orphan_translate, orphan_translate_messages, stop,
}
use copilot_pool_gateway.Handler.Responses.Answers.{on_answer}

-- choosePinnedResponsesAccount, and whether the account was for one attempt only.
unfoldable pub choose_pinned_responses_account :
    Option String → Option String → Option String → Option (String × Bool)
choose_pinned_responses_account (some id) continuation same_turn = some (id, true)
choose_pinned_responses_account none (some id) same_turn = some (id, false)
choose_pinned_responses_account none none (some id) = some (id, false)
choose_pinned_responses_account none none none = none

-- `continuationCanDetach`
abbrev pub detachable : Option String → Bool → Bool
detachable none b = b
detachable (some id) b = false

-- `invoke` and `modeName`
unfoldable pub mode_of : Bool → Turn → Mode
mode_of can_detach t = elim t.recovery [
  | chat ↦ orphan_translate
  | messages ↦ orphan_translate_messages
  | no_route ↦
      if not t.continuation_requested
      then direct
      else if t.cross_account_rollover
      then detached_cross
      else if can_detach
      then detached_same
      else direct
]

abbrev pub call_of : String → Bool → Turn → Call
call_of id can_detach t = record {
  account_id = id;
  mode = mode_of can_detach t;
  degraded_body = t.degraded_body;
  with_turn = t.with_turn && is_armed t.recovery;
}

abbrev pub replayable : Env → String → Turn → Gateway → Bool × Gateway
replayable env id t g =
    let (b, replay') =
      can_replay_responses_continuation env.metadata env.now id t.previous_response_id g.replay in
    if t.continuation_requested then (b, record g { replay = replay' }) else (false, g)

-- The call itself.
abbrev pub invoke : Upstream → Env → Request → String → Turn → Bool × Gateway → Step × Gateway
invoke up env q id t (b, g) =
    let can_detach = detachable t.continuation_pinned b in
    on_answer up env q can_detach (call_of id can_detach t) (up.answer t.attempt) t
      (up.meanwhile t.attempt g)

abbrev pub after_limit :
    Upstream → Env → Request → String → Turn → (Bool × ℕ) × Gateway → Step × Gateway
after_limit up env q id t ((true, _), g) =
    invoke up env q id t (replayable env id t (note_request env id false false g))
after_limit up env q id t ((false, _), g) = (stop [] (failure 429 "rate limit exceeded"), g)

abbrev pub or_this : Option String → String → Option String
or_this none id = some id
or_this (some other) id = some other

-- From the resolved account on.
abbrev pub attempt_on : Upstream → Env → Request → String → Turn → Gateway → Step × Gateway
attempt_on up env q id t g =
    let t' = record t { same_turn_pinned = or_this t.same_turn_pinned id } in
    after_limit up env q id t' (check_limit env id g)

abbrev pub after_resolve : Upstream → Env → Request → Turn → Resolved × Gateway → Step × Gateway
after_resolve up env q t (found id, g) = attempt_on up env q id t g
after_resolve up env q t (refused code text, g) = (stop [] (failure code text), g)

abbrev pub is_same : String → Option String → Bool
is_same id none = false
is_same id (some other) = id == other

abbrev pub pinned_turn : String → Bool → Turn → Turn
pinned_turn id one_shot t = record t {
  pinned_account = if one_shot then none else t.pinned_account;
  cross_account_rollover =
      if is_same id t.same_turn_pinned then false else t.cross_account_rollover;
}

abbrev pub attempt_with :
    Upstream → Env → Request → Turn → Gateway → Option (String × Bool) → Step × Gateway
attempt_with up env q t g (some (id, one_shot)) =
    attempt_on up env q id (pinned_turn id one_shot t) g
attempt_with up env q t g none =
    after_resolve up env q t (resolve_state env q.caller t.affinity_key t.exclude q.model g)

-- The body of the loop.
unfoldable pub attempt_responses : Upstream → Env → Request → Turn → Gateway → Step × Gateway
unfolding on_answer choose_pinned_responses_account
attempt_responses up env q t g =
    attempt_with up env q t g
      (choose_pinned_responses_account t.pinned_account t.continuation_pinned t.same_turn_pinned)
