-- ===== src/Handler/Recovery.antt =====
-- handler/proxy.go: where a continuation that has lost its account may go.
use copilot_pool_gateway.Base.{
  String, Bool, false, not, ◌||◌, ◌&&◌, List, [], Option, none, some, ◌==◌, if◌then◌else◌, trim,
  to_lower, exists, map, keep, has_prefix,
}
use copilot_pool_gateway.Store.Disk.{Result}
use copilot_pool_gateway.Store.Account.{Account}
use copilot_pool_gateway.Store.Account.Lookup.{get_account, get_enabled_accounts}
use copilot_pool_gateway.Store.Account.Models.{is_model_blocked}
use copilot_pool_gateway.Instance.Registry.{get_instance_state}
use copilot_pool_gateway.Handler.Gateway.{Gateway, Env}
use copilot_pool_gateway.Handler.Routing.{Caller, in_pool, as_account, combined_exclude}

-- orphanTranslateMessagesModel
unfoldable pub orphan_translate_messages_model : String → Bool
orphan_translate_messages_model model =
    let m = to_lower (trim model) in
    not (m == "") && (has_prefix "gpt-5" m || has_prefix "claude-" m)

-- orphanTranslateCompatibleModel
unfoldable pub orphan_translate_compatible_model : String → Bool
orphan_translate_compatible_model model =
    let m = to_lower (trim model) in
    not (m == "") && not (has_prefix "gpt-5" m || has_prefix "claude-" m)

-- orphanTranslateRoute
pub data OrphanTranslateRoute : Type 0 where
  no_route chat messages : OrphanTranslateRoute

-- orphanTranslateRouteForModel
unfoldable pub orphan_translate_route_for_model : String → OrphanTranslateRoute
unfolding orphan_translate_messages_model orphan_translate_compatible_model
orphan_translate_route_for_model model =
    if orphan_translate_messages_model model
    then messages
    else if orphan_translate_compatible_model model
    then chat
    else no_route

abbrev may_pass : Bool → List String → String → Gateway → Account → Bool
may_pass require_worker exclude model g a =
    not (require_worker && trim a.worker_url == "")
    && (not (combined_exclude exclude model g a.id) && get_instance_state a.id g.instances)

abbrev any_passes : Bool → List String → String → Gateway → Result (List Account) → Bool
any_passes require_worker exclude model g (Result.err e) = false
any_passes require_worker exclude model g (Result.ok accounts) =
    exists (may_pass require_worker exclude model g) accounts

abbrev account_passes : Bool → String → Gateway → Result (Option Account) → Bool
account_passes require_worker model g (Result.err e) = false
account_passes require_worker model g (Result.ok none) = false
account_passes require_worker model g (Result.ok (some a)) =
    not (require_worker && trim a.worker_url == "")
    && (not (is_model_blocked g.accounts a.id model) && get_instance_state a.id g.instances)

-- canOrphanPassthrough
unfoldable pub can_orphan_passthrough : Env → Caller → String → List String → Gateway → Bool
can_orphan_passthrough env (in_pool strategy) model exclude g =
    any_passes (not env.responses_orphan_translate_on) exclude model g
      (get_enabled_accounts g.accounts).0
can_orphan_passthrough env (as_account id) model exclude g =
    not (id == "")
    && account_passes (not env.responses_orphan_translate_on) model g (get_account id g.accounts).0

abbrev without_worker : Result (List Account) → List String
without_worker (Result.err e) = []
without_worker (Result.ok accounts) = map (λ a. a.id) (keep (λ a. trim a.worker_url == "") accounts)

-- workerDisabledAccountIDs
unfoldable pub worker_disabled_account_ids : Gateway → List String
worker_disabled_account_ids g = without_worker (get_enabled_accounts g.accounts).0

-- resolveOrphanRecoveryState: the route of the recovery, `no_route` where it is not armed. Its
-- reason and its account are only logged.
unfoldable pub resolve_orphan_recovery_state :
    Env → Caller → String → List String → Gateway → OrphanTranslateRoute
unfolding can_orphan_passthrough orphan_translate_route_for_model
resolve_orphan_recovery_state env caller model exclude g =
    if env.orphan_passthrough_off || not env.responses_orphan_translate_on
    then no_route
    else if can_orphan_passthrough env caller model exclude g
    then orphan_translate_route_for_model model
    else no_route
