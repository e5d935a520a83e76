-- ===== src/Handler/Messages/Repeats.antt =====
-- No call of proxyMessages is made twice.
use copilot_pool_gateway.Base.{
  ℕ, zero, suc, ◌+◌, ◌≤◌, String, ◌≡◌, refl, Bool, true, false, not, ◌&&◌, List, [], ◌∷◌, Option,
  none, some, arith, ◌==◌, length, Bool-cases, inl, inr,
}
use copilot_pool_gateway.Handler.Affinity.{Affinity}
use copilot_pool_gateway.Handler.Affinity.Laws.{lookup_messages_session_affinity_serves}
use copilot_pool_gateway.Handler.Gateway.{Gateway, Env, accounts_of, check_limit}
use copilot_pool_gateway.Handler.Routing.{
  Caller, in_pool, as_account, is_pool, Resolved, found, refused, member, resolve_state,
  resolve_known_account,
}
use copilot_pool_gateway.Handler.Routing.Serves.{resolve_state_serves}
use copilot_pool_gateway.Handler.Responses.{Upstream}
use copilot_pool_gateway.Handler.Messages.{
  continues, MessagesRequest, MessagesTurn, Call, Next, new_turn,
}
use copilot_pool_gateway.Handler.Messages.Choice.{
  Choice, chosen, no_choice, from_state, by_state, or_by_state, by_affinity, or_by_affinity,
  resolve_state_for_message_replay, choose_fresh, given_up, again_or_fresh, choose_account,
}
use copilot_pool_gateway.Handler.Messages.Loop.{
  is_detached, after_limit, after_choice, attempts, proxy_messages,
}
use copilot_pool_gateway.Handler.Messages.Detached.{
  NoRepeat, only_detached, is_none, Sound, Fits, Chosen, none_Fits, FitsNext, excluded_rest, weaken,
  on_answer-Fits,
}

ChosenBy : MessagesRequest → MessagesTurn → Choice → Type 0
ChosenBy q t (no_choice code text) = Unit
ChosenBy q t (chosen b id) = Chosen q t (id, is_detached q b t) b

-- An account that was not tried yet.
untried-ChosenBy :
    (q : MessagesRequest) (t : MessagesTurn) (id : String)
    → member id t.exclude ≡ false
    → ChosenBy q t (chosen false id)
unfolding ChosenBy
untried-ChosenBy q t id h = record { untried = h; detached = ground arith; bound = refl }

bound_untried :
    (id : String) (exclude : List String) → is_none exclude ≡ true → member id exclude ≡ false
bound_untried id [] h = refl
bound_untried id (e ∷ exclude) h = absurd (ground (arith, h))

module _ (env : Env) (q : MessagesRequest) (pool : is_pool q.caller ≡ true) where
  by_state-ChosenBy : (t : MessagesTurn) (g : Gateway) → ChosenBy q t (by_state env q t g).0
  unfolding ChosenBy
  by_state-ChosenBy t g =
      go (resolve_state env q.caller "" t.exclude q.model g) (λ id e. untried q.caller pool id e)
    where
      untried :
          (c : Caller)
          → is_pool c ≡ true
          → (id : String) → (resolve_state env c "" t.exclude q.model g).0 ≡ found id
          → member id t.exclude ≡ false
      untried (in_pool strategy) _ id e =
          (resolve_state_serves env strategy "" q.model t.exclude g id e).0
      untried (as_account a) x id e = absurd (ground (arith, x))

      go :
          (r : Resolved × Gateway)
          → ((id : String) → r.0 ≡ found id → member id t.exclude ≡ false)
          → ChosenBy q t (from_state r).0
      go (found id, g') h = untried-ChosenBy q t id (h id refl)
      go (refused code text, g') h = tt

  by_affinity-ChosenBy : (t : MessagesTurn) (g : Gateway) → ChosenBy q t (by_affinity env q t g).0
  by_affinity-ChosenBy t g = elim (Bool-cases (q.affinity_key == "")) [
    | inl e ↦ rw e (by_state-ChosenBy t g)
    | inr e ↦ rw e (
        go _ (λ id h.
          (lookup_messages_session_affinity_serves (accounts_of g) env.now q.affinity_key q.model
            (λ id'. member id' t.exclude) g.messages_affinity id h).0))
  ]
    where
      go :
          (r : Option String × Affinity)
          → ((id : String) → r.0 ≡ some id → member id t.exclude ≡ false)
          → ChosenBy q t (or_by_state env q t r g).0
      go (some id, m) h = untried-ChosenBy q t id (h id refl)
      go (none, m) h = by_state-ChosenBy t (record g { messages_affinity = m })

  choose_fresh-ChosenBy :
      (t : MessagesTurn) (g : Gateway)
      → Sound q t
      → (t.retry_account_id == "") ≡ true
      → ChosenBy q t (choose_fresh env q t g).0
  unfolding ChosenBy
  choose_fresh-ChosenBy t g s r = elim (Bool-cases (continues q && not t.cross_account_rollover)) [
    | inl e ↦ rw e (go (resolve_state_for_message_replay env q g) e)
    | inr e ↦ rw e (by_affinity-ChosenBy t g)
  ]
    where
      go :
          (x : Option String × Gateway)
          → (continues q && not t.cross_account_rollover) ≡ true
          → ChosenBy q t (or_by_affinity env q t x.0 x.1).0
      go (some id, g') e = record {
        untried = bound_untried id t.exclude (ground (arith, e, s.bound));
        detached = ground (arith, e, r);
        bound = ground (arith, e);
      }
      go (none, g') e = by_affinity-ChosenBy t g'

  -- The variables after the choice keep what was known of them before.
  record Narrows (t t' : MessagesTurn) : Type 0 where
    sound : Sound q t'
    widens : (n : ℕ) (calls : List Call) → Fits q t' n calls → Fits q t n calls

  given_up-Sound : (t : MessagesTurn) → Sound q (given_up q t)
  given_up-Sound t = record { bound = ground (arith, pool); retry = refl }

  given_up-Narrows : (t : MessagesTurn) → Narrows t (given_up q t)
  given_up-Narrows t = record {
    sound = given_up-Sound t;
    widens = λ n calls f. record {
      untried = (excluded_rest t.retry_account_id true t.exclude calls (rw pool at f.untried)).0;
      detached =
          weaken (only_detached q t) (only_detached q (given_up q t)) calls
            (λ x. ground (arith, x, pool)) f.detached;
      no_repeat = f.no_repeat;
      few = f.few;
    };
  }

  choose_account-Narrows :
      (t : MessagesTurn) (g : Gateway)
      → Sound q t
      → ChosenBy q (choose_account env q t g).1 (choose_account env q t g).0.0
        × Narrows t (choose_account env q t g).1
  unfolding choose_account
  choose_account-Narrows t g s = elim (Bool-cases (t.retry_account_id == "")) [
    | inl e ↦ rw e (choose_fresh-ChosenBy t g s e, same)
    | inr e ↦ rw e (go (resolve_known_account t.retry_account_id q.model g) e)
  ]
    where
      same : Narrows t t
      same = record { sound = s; widens = λ n calls f. f }

      go :
          (o : Option String)
          → (t.retry_account_id == "") ≡ false
          → ChosenBy q (again_or_fresh env q t o g).1 (again_or_fresh env q t o g).0.0
            × Narrows t (again_or_fresh env q t o g).1
      go (some id) e = (
        untried-ChosenBy q t id (bound_untried id t.exclude (ground (arith, e, s.bound, s.retry))),
        same,
      )
      go none e =
          (choose_fresh-ChosenBy (given_up q t) g (given_up-Sound t) refl, given_up-Narrows t)

  after_choice-Fits :
      (up : Upstream) (k n : ℕ) (next : Next) (t : MessagesTurn)
      (r : (Choice × Gateway) × MessagesTurn)
      → FitsNext q n next
      → ChosenBy q r.1 r.0.0
      → Narrows t r.1
      → Fits q t (suc n) (after_choice up env q k next r).0.0
  unfolding ChosenBy
  after_choice-Fits up k n next t ((no_choice code text, g), t') f c w = none_Fits q t (suc n)
  after_choice-Fits up k n next t ((chosen b id, g), t') f c w =
      w.widens (suc n) _ (go (check_limit env id g))
    where
      go :
          (x : (Bool × ℕ) × Gateway) → Fits q t' (suc n) (after_limit up env q k b next id t' x).0.0
      go ((true, _), g') =
          on_answer-Fits q t' n next f (id, is_detached q b t') b w.sound c env (up.answer k) _
      go ((false, _), g') = none_Fits q t' (suc n)

  attempts-Fits :
      (up : Upstream) (n k : ℕ) (t : MessagesTurn) (g : Gateway)
      → Sound q t
      → Fits q t (suc n) (attempts n up env q k t g).0.0
  unfolding attempts FitsNext
  attempts-Fits up zero k t g s =
      let (c, w) = choose_account-Narrows t g s in
      after_choice-Fits up k zero none t (choose_account env q t g) tt c w
  attempts-Fits up (suc n) k t g s =
      let (c, w) = choose_account-Narrows t g s in
      after_choice-Fits up k (suc n) (some (attempts n up env q (k + 1))) t
        (choose_account env q t g) (λ t' g' s'. attempts-Fits up n (k + 1) t' g' s') c w

-- A request of the pool to /v1/messages calls the upstream at most 3 times, and no account twice in
-- the same mode: after a call that kept the conversation, an account is asked once more at most, and
-- then detached from it.
pub proxy_messages-NoRepeat :
    (up : Upstream) (env : Env) (q : MessagesRequest) (g : Gateway)
    → is_pool q.caller ≡ true
    → NoRepeat (proxy_messages up env q g).0.0 × (length (proxy_messages up env q g).0.0 ≤ 3)
unfolding proxy_messages
proxy_messages-NoRepeat up env q g pool = rw pool (
    let f =
      attempts-Fits env q pool up 2 0 new_turn g (record { bound = ground arith; retry = refl }) in
    (f.no_repeat, f.few))
