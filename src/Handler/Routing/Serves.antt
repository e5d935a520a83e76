-- ===== src/Handler/Routing/Serves.antt =====
-- The accounts that resolveState answers.
use copilot_pool_gateway.Base.{
  String, ◌≡◌, ◌≢◌, first, refl, subst, Bool, true, false, ◌||◌, List, Option, none, some, arith,
  ◌==◌, Bool-cases, inl, inr,
}
use copilot_pool_gateway.Store.Disk.{Result, contents, lands}
use copilot_pool_gateway.Store.Account.{Account, has_id}
use copilot_pool_gateway.Base.StringMap.{get}
use copilot_pool_gateway.Store.Account.Models.{get_blocked_account_ids}
use copilot_pool_gateway.Instance.LoadBalancer.Choice.{select_account_candidate}
use copilot_pool_gateway.Instance.Registry.{get_instance_state}
use copilot_pool_gateway.Handler.Affinity.{Affinity}
use copilot_pool_gateway.Handler.Affinity.Laws.{lookup_responses_session_affinity_serves}
use copilot_pool_gateway.Handler.Gateway.{
  Gateway, Env, accounts_of, has_running_instance, disable_account,
}
use copilot_pool_gateway.Handler.Gateway.Disabled.{not_running, not_enabled}
use copilot_pool_gateway.Handler.Routing.{
  in_pool, Resolved, found, refused, member, is_blocked, combined_exclude, selected, select_in_pool,
  or_select, resolve_in_pool, resolve_state,
}

abbrev IfFound : (String → Type 0) → Resolved → Type 0
IfFound P (found id) = P id
IfFound P (refused code text) = Unit

abbrev Serves : (String → Bool) → Gateway → String → Type 0
Serves exclude g id =
    (exclude id ≡ false)
    × (get_instance_state id g.instances ≡ true)
    × ((has_running_instance g id || (accounts_of g).is_enabled id) ≡ true)

module _ (env : Env) (key strategy model : String) (exclude : String → Bool) where
  selected-IfFound :
      (r : Result (Option Account)) (g : Gateway)
      → ((a : Account)
          → r ≡ Result.ok (some a)
          → (exclude a.id ≡ false) × (has_running_instance g a.id ≡ true))
      → IfFound (Serves exclude g) (selected env key r g).0
  selected-IfFound (Result.err e) g h = tt
  selected-IfFound (Result.ok none) g h = tt
  selected-IfFound (Result.ok (some a)) g h =
      elim (Bool-cases (get_instance_state a.id g.instances)) [
        | inl e ↦ rw e ((h a refl).0, e, ground (arith, (h a refl).1))
        | inr e ↦ rw e tt
      ]

  select_in_pool-IfFound :
      (g : Gateway) → IfFound (Serves exclude g) (select_in_pool env key strategy exclude g).0
  select_in_pool-IfFound g = selected-IfFound _ _ (λ a e.
      let c =
        select_account_candidate strategy exclude (has_running_instance g) env.now g.accounts
          g.balancer a e in
      (c.1, c.2))

  or_select-IfFound :
      (r : Option String × Affinity) (g : Gateway)
      → ((id : String) → r.0 ≡ some id → Serves exclude g id)
      → IfFound (Serves exclude g) (or_select env key strategy exclude r g).0
  or_select-IfFound (some id, m) g h = h id refl
  or_select-IfFound (none, m) g h = select_in_pool-IfFound (record g { responses_affinity = m })

  resolve_in_pool-IfFound :
      (g : Gateway)
      → IfFound (Serves exclude g) (resolve_in_pool env key strategy exclude model g).0
  unfolding resolve_in_pool
  resolve_in_pool-IfFound g = elim (Bool-cases (key == "")) [
    | inl e ↦ rw e (select_in_pool-IfFound g)
    | inr e ↦ rw e (
        or_select-IfFound _ g (λ id found'.
          let serves =
            lookup_responses_session_affinity_serves (accounts_of g) env.now key model exclude
              g.responses_affinity id found' in
          (serves.0, serves.3, ground (arith, serves.2))))
  ]

resolve_state-Serves :
    (env : Env) (strategy key model : String) (exclude : List String) (g : Gateway) (id : String)
    → (resolve_state env (in_pool strategy) key exclude model g).0 ≡ found id
    → Serves (combined_exclude exclude model g) g id
unfolding resolve_state
resolve_state-Serves env strategy key model exclude g id e =
    subst (IfFound (Serves (combined_exclude exclude model g) g)) e
      (resolve_in_pool-IfFound env key strategy model (combined_exclude exclude model g) g)

-- The account that resolveState gives a request of the pool has an instance, and is neither among
-- those that the request has tried nor blocked for its model.
pub resolve_state_serves :
    (env : Env) (strategy key model : String) (exclude : List String) (g : Gateway) (id : String)
    → (resolve_state env (in_pool strategy) key exclude model g).0 ≡ found id
    → (member id exclude ≡ false)
      × (get (get_blocked_account_ids g.accounts model) id ≡ none)
      × (get_instance_state id g.instances ≡ true)
resolve_state_serves env strategy key model exclude g id e =
    let serves = resolve_state-Serves env strategy key model exclude g id e in
    (ground (arith, serves.0), go _ serves.0, serves.1)
  where
    go : (o : Option Bool) → (member id exclude || is_blocked o) ≡ false → o ≡ none
    go none h = refl
    go (some b) h = absurd (ground (arith, h))

-- Once an account is disabled for a fatal answer, resolveState gives it to no request of the pool,
-- whatever the strategy, the affinity of the session among the responses and the model, where the
-- account was in a file that could be read and written. This is about resolveState alone, and not
-- about an account that a handler finds in another way first, such as the one that a session of
-- /v1/messages is bound to.
pub resolve_state-disable_account :
    (env later : Env) (g : Gateway) (xs : List Account) (id reason : String) (a : Account)
    (strategy key model : String) (exclude : List String)
    → contents g.accounts.file ≡ some xs
    → g.accounts.fate ≡ lands
    → first (has_id id) xs ≡ some a
    → (resolve_state later (in_pool strategy) key exclude model (disable_account env id reason g)).0
      ≢ found id
resolve_state-disable_account env later g xs id reason a strategy key model exclude e written there
      h =
    let serves =
      resolve_state-Serves later strategy key model exclude (disable_account env id reason g) id
        h in
    absurd (
      ground (
        arith,
        serves.2,
        not_running env g xs id reason a e written there,
        not_enabled env g xs id reason a e written there,
      ))
