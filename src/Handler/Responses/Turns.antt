-- ===== src/Handler/Responses/Turns.antt =====
-- One attempt of proxyResponses: which account it asks, and what it leaves to the next.
use copilot_pool_gateway.Base.{
  ℕ, ◌≤◌, String, ◌≡◌, refl, sym, ◌∙◌, Bool, true, false, not, ◌&&◌, [], ◌∷◌, Option, none, some,
  arith, if◌then◌else◌, ltb,
}
use copilot_pool_gateway.Handler.Gateway.{Gateway, Env, check_limit}
use copilot_pool_gateway.Handler.Routing.{Resolved, found, refused}
use copilot_pool_gateway.Handler.Responses.{Request, Upstream, Turn, Step, stop, again}
use copilot_pool_gateway.Handler.Responses.Attempt.{
  choose_pinned_responses_account, detachable, invoke, after_limit, or_this, attempt_on,
  after_resolve, pinned_turn, attempt_with, attempt_responses, call_of, mode_of,
}
use copilot_pool_gateway.Handler.Responses.Bounds.{
  budget, NoneOr, is_some, Pinned, Proceeds, is_detached, on_answer-Proceeds,
}

-- The account may be the turn's: no pin is another one's.
record Ready (id : String) (t : Turn) : Type 0 where
  same_turn : NoneOr id t.same_turn_pinned
  one_shot : NoneOr id t.pinned_account
  bound : NoneOr id t.continuation_pinned
  continues : (t.continuation_requested && not (is_some t.continuation_pinned)) ≡ false
  no_rollover : t.cross_account_rollover ≡ false

abbrev on : String → Turn → Turn
on id t = record t { same_turn_pinned = or_this t.same_turn_pinned id }

or_this-is : (id : String) (o : Option String) → NoneOr id o → or_this o id ≡ some id
or_this-is id none h = refl
or_this-is id (some other) h = rw h refl

on-Pinned : (id : String) (t : Turn) → Ready id t → Pinned id (on id t)
on-Pinned id t r = record {
  same_turn = or_this-is id t.same_turn_pinned r.same_turn;
  one_shot = r.one_shot;
  bound = r.bound;
  continues = r.continues;
  no_rollover = r.no_rollover;
}

budget-on : (id : String) (t : Turn) → budget (on id t) ≤ budget t
budget-on id t = ground arith

Proceeds-mono :
    (id : String) (t u : Turn) (s : Step) → budget u ≤ budget t → Proceeds id u s → Proceeds id t s
Proceeds-mono id t u (stop [] reply) le h = tt
Proceeds-mono id t u (stop (c ∷ cs) reply) le h = h
Proceeds-mono id t u (again c t') le h = record {
  pinned = h.pinned;
  left = h.left;
  spent = omega (arith, h.spent, le);
  fits = h.fits;
}

-- A continuation is bound, so the attempt is never detached.
detachable-false :
    (o : Option String) (continues b : Bool)
    → (continues && not (is_some o)) ≡ false
    → (continues ≡ false → b ≡ false)
    → detachable o b ≡ false
detachable-false none continues b h f = ground (arith, f)
detachable-false (some id) continues b h f = refl

mode_of-attached :
    (t : Turn) → t.cross_account_rollover ≡ false → is_detached (mode_of false t) ≡ false
unfolding mode_of
mode_of-attached t h = ground arith

module _ (up : Upstream) (env : Env) (q : Request) where
  invoke-Proceeds :
      (id : String) (t : Turn) (r : Bool × Gateway)
      → ltb t.attempt t.attempt_limit ≡ true
      → Pinned id t
      → (t.continuation_requested ≡ false → r.0 ≡ false)
      → Proceeds id t (invoke up env q id t r).0
  invoke-Proceeds id t (b, g) h p f =
      rw (detachable-false t.continuation_pinned t.continuation_requested b p.continues f) (
        on_answer-Proceeds id t (call_of id false t) h p (refl, mode_of-attached t p.no_rollover) up
          env q (up.answer t.attempt) (up.meanwhile t.attempt g))

  attempt_on-Proceeds :
      (id : String) (t : Turn) (g : Gateway)
      → ltb t.attempt t.attempt_limit ≡ true
      → Ready id t
      → Proceeds id t (attempt_on up env q id t g).0
  attempt_on-Proceeds id t g h r =
      Proceeds-mono id t (on id t) _ (budget-on id t) (go (check_limit env id g))
    where
      go :
          (x : (Bool × ℕ) × Gateway) → Proceeds id (on id t) (after_limit up env q id (on id t) x).0
      go ((true, n), g') = invoke-Proceeds id (on id t) _ h (on-Pinned id t r) (λ e. rw e refl)
      go ((false, n), g') = tt

-- Between attempts: either no account is chosen yet, and then none is pinned for one attempt only,
-- or all pins are the turn's account's.
abbrev pub SamePins : Option String → Option String → Option String → Type 0
SamePins pinned continuation none = pinned ≡ none
SamePins pinned continuation (some id) = NoneOr id pinned × NoneOr id continuation

abbrev AllPins : String → Option String → Option String → Option String → Type 0
AllPins id pinned continuation same = NoneOr id same × NoneOr id pinned × NoneOr id continuation

abbrev ChosenPins : Option (String × Bool) → Option String → Option String → Option String → Type 0
ChosenPins none pinned continuation same = (pinned ≡ none) × (continuation ≡ none) × (same ≡ none)
ChosenPins (some (id, one_shot)) pinned continuation same = AllPins id pinned continuation same

choose-ChosenPins :
    (pinned continuation same : Option String)
    → SamePins pinned continuation same
    → ChosenPins (choose_pinned_responses_account pinned continuation same) pinned continuation same
unfolding choose_pinned_responses_account
choose-ChosenPins none none none h = (refl, refl, refl)
choose-ChosenPins none none (some id) h = (refl, tt, tt)
choose-ChosenPins none (some id) none h = (tt, tt, refl)
choose-ChosenPins none (some id) (some other) h = (sym h.1, tt, refl)
choose-ChosenPins (some id) c none h = absurd (ground arith)
choose-ChosenPins (some id) none (some other) h = (sym h.0, refl, tt)
choose-ChosenPins (some id) (some third) (some other) h = (sym h.0, refl, h.1 ∙ sym h.0)

NoneOr-none : (id : String) (o : Option String) → o ≡ none → NoneOr id o
NoneOr-none id none h = tt
NoneOr-none id (some other) h = absurd (ground arith)

pub record Coherent (t : Turn) : Type 0 where
  pub pins : SamePins t.pinned_account t.continuation_pinned t.same_turn_pinned
  pub continues : (t.continuation_requested && not (is_some t.continuation_pinned)) ≡ false
  pub no_rollover : t.cross_account_rollover ≡ false

-- The account of the next attempt: it is the turn's, or the one that its continuation is bound to.
abbrev pub Attempted : Turn → Step → Type 0
Attempted t s =
    (id : String) × NoneOr id t.same_turn_pinned × NoneOr id t.continuation_pinned × Proceeds id t s

module _ (up : Upstream) (env : Env) (q : Request) where
  after_resolve-Attempted :
      (t : Turn) (r : Resolved × Gateway)
      → ltb t.attempt t.attempt_limit ≡ true
      → ((id : String) → Ready id t)
      → Attempted t (after_resolve up env q t r).0
  after_resolve-Attempted t (found id, g) h r =
      (id, (r id).same_turn, (r id).bound, attempt_on-Proceeds up env q id t g h (r id))
  after_resolve-Attempted t (refused code text, g) h r = ("", (r "").same_turn, (r "").bound, tt)

  attempt_with-Attempted :
      (t : Turn) (g : Gateway) (o : Option (String × Bool))
      → ltb t.attempt t.attempt_limit ≡ true
      → Coherent t
      → ChosenPins o t.pinned_account t.continuation_pinned t.same_turn_pinned
      → Attempted t (attempt_with up env q t g o).0
  attempt_with-Attempted t g none h c (p, b, s) = after_resolve-Attempted t _ h (λ id. record {
    same_turn = NoneOr-none id _ s;
    one_shot = NoneOr-none id _ p;
    bound = NoneOr-none id _ b;
    continues = c.continues;
    no_rollover = c.no_rollover;
  })
  attempt_with-Attempted t g (some (id, one_shot)) h c (s, p, b) = (
    id,
    s,
    b,
    Proceeds-mono id t (pinned_turn id one_shot t) _ (omega arith) (
        attempt_on-Proceeds up env q id (pinned_turn id one_shot t) g h (record {
          same_turn = s;
          one_shot = unpinned one_shot t.pinned_account p;
          bound = b;
          continues = c.continues;
          no_rollover = ground (arith, c.no_rollover);
        })),
  )
    where
      unpinned :
          (spent : Bool) (o : Option String) → NoneOr id o → NoneOr id (if spent then none else o)
      unpinned true o n = tt
      unpinned false o n = n

  pub attempt_responses-Attempted :
      (t : Turn) (g : Gateway)
      → ltb t.attempt t.attempt_limit ≡ true
      → Coherent t
      → Attempted t (attempt_responses up env q t g).0
  unfolding attempt_responses
  attempt_responses-Attempted t g h c =
      attempt_with-Attempted t g _ h c
        (choose-ChosenPins t.pinned_account t.continuation_pinned t.same_turn_pinned c.pins)
