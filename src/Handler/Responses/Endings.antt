-- ===== src/Handler/Responses/Endings.antt =====
-- How the loop of proxyResponses ends: the calls that it makes, and the reply.
use copilot_pool_gateway.Base.{
  ℕ, zero, suc, ◌≤◌, ◌<◌, String, ◌≡◌, refl, sym, subst, Bool, true, false, List, [], ◌∷◌, arith,
  ltb, All, length,
}
use copilot_pool_gateway.Handler.Gateway.{Gateway, Env}
use copilot_pool_gateway.Handler.Responses.{Request, Upstream, Call, Turn, Step, stop, again}
use copilot_pool_gateway.Handler.Responses.Attempt.{attempt_responses}
use copilot_pool_gateway.Handler.Responses.Loop.{Ending, replied, Run, follow, loop}
use copilot_pool_gateway.Handler.Responses.Bounds.{budget, NoneOr, Pinned, Proceeds, Fits}
use copilot_pool_gateway.Handler.Responses.Turns.{Coherent, SamePins, attempt_responses-Attempted}

abbrev pub is_reply : Ending → Bool
is_reply (replied reply) = true
is_reply _ = false

-- A run that ends with a reply, and whose calls, at most `n`, are all of the account `id`.
pub record Ends (id : String) (n : ℕ) (calls : List Call) (ending : Ending) : Type 0 where
  pub replies : is_reply ending ≡ true
  pub few : length calls ≤ n
  pub on_account : All (Fits id) calls

unfoldable pub EndsRun : String → ℕ → Run → Type 0
EndsRun id n ((calls, ending), g) = Ends id n calls ending

follow-Ends :
    (id : String) (t : Turn) (s : Step × Gateway) (go_on : Turn → Gateway → Run)
    → ltb t.attempt t.attempt_limit ≡ true
    → Proceeds id t s.0
    → ((t' : Turn) (g' : Gateway)
        → Pinned id t'
        → ltb t'.attempt t'.attempt_limit ≡ true
        → budget t' < budget t
        → EndsRun id (budget t') (go_on t' g'))
    → EndsRun id (budget t) (follow s go_on)
unfolding EndsRun
follow-Ends id t (stop [] reply, g) go_on h p next = record {
  replies = refl;
  few = omega arith;
  on_account = tt;
}
follow-Ends id t (stop (c ∷ []) reply, g) go_on h p next = record {
  replies = refl;
  few = ground arith;
  on_account = (p.0, tt);
}
follow-Ends id t (stop (c ∷ d ∷ cs) reply, g) go_on h p next = absurd (ground arith)
follow-Ends id t (again c t', g) go_on h p next =
    let e = next t' g p.pinned p.left p.spent in
    record {
      replies = e.replies;
      few = omega (arith, e.few, p.spent);
      on_account = (p.fits, e.on_account);
    }

Coherent-Pinned : (id : String) (t : Turn) → Pinned id t → Coherent t
Coherent-Pinned id t p = record {
  pins =
      subst (SamePins t.pinned_account t.continuation_pinned) (sym p.same_turn)
        (p.one_shot, p.bound);
  continues = p.continues;
  no_rollover = p.no_rollover;
}

module _ (up : Upstream) (env : Env) (q : Request) where
  attempt_responses-Proceeds :
      (id : String) (t : Turn) (g : Gateway)
      → ltb t.attempt t.attempt_limit ≡ true
      → Pinned id t
      → Proceeds id t (attempt_responses up env q t g).0
  attempt_responses-Proceeds id t g h p =
      let (id', same, _, s) = attempt_responses-Attempted up env q t g h (Coherent-Pinned id t p) in
      subst (λ i. Proceeds i t (attempt_responses up env q t g).0)
        (sym (subst (NoneOr id') p.same_turn same)) s

  loop-Ends :
      (n : ℕ) (id : String) (t : Turn) (g : Gateway)
      → Pinned id t
      → ltb t.attempt t.attempt_limit ≡ true
      → budget t ≤ n
      → EndsRun id (budget t) (loop n up env q t g)
  unfolding loop
  loop-Ends zero id t g p h le = absurd (ground arith)
  loop-Ends (suc n) id t g p h le = rw h (
      follow-Ends id t (attempt_responses up env q t g) (loop n up env q) h
        (attempt_responses-Proceeds id t g h p)
        (λ t' g' p' h' spent. loop-Ends n id t' g' p' h' (omega (arith, spent, le))))

  -- The account of a run: the one that its continuation is bound to.
  pub loop_start-Ends :
      (n : ℕ) (t : Turn) (g : Gateway)
      → Coherent t
      → ltb t.attempt t.attempt_limit ≡ true
      → budget t ≤ suc n
      → (id : String) × NoneOr id t.continuation_pinned
        × EndsRun id (budget t) (loop (suc n) up env q t g)
  unfolding loop
  loop_start-Ends n t g c h le =
      let (id, _, b, s) = attempt_responses-Attempted up env q t g h c in
      (
        id,
        b,
        rw h (
            follow-Ends id t (attempt_responses up env q t g) (loop n up env q) h s
              (λ t' g' p' h' spent. loop-Ends n id t' g' p' h' (omega (arith, spent, le)))),
      )
