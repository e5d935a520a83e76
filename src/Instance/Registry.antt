-- ===== src/Instance/Registry.antt =====
-- instance/manager.go, health.go and account_probe.go: the instances of the accounts. Of an
-- instance's State only its presence counts here, and of its stop channel whether it is open. What
-- a probe of the upstream finds is an argument.
use copilot_pool_gateway.Base.{
  String, Bool, true, false, not, ◌||◌, ◌&&◌, List, [], ◌∷◌, ◌++◌, Option, none, some, ◌==◌,
  if◌then◌else◌, trim, to_lower, exists,
}
use copilot_pool_gateway.Base.StringMap.{StringMap, get, put}
use copilot_pool_gateway.Store.Account.{Account}

pub data InstanceStatus : Type 0 where
  running stopped error : InstanceStatus

pub record ProxyInstance : Type 0 where
  pub account : Account
  pub has_state : Bool
  pub status : InstanceStatus
  pub error_text : String
  pub stop_chan_open : Bool

-- `instances`
abbrev pub Registry : Type 0
Registry = StringMap ProxyInstance

abbrev pub is_running_status : InstanceStatus → Bool
is_running_status running = true
is_running_status _ = false

abbrev pub status_of : Option ProxyInstance → InstanceStatus
status_of none = stopped
status_of (some inst) = inst.status

-- GetInstanceStatus
unfoldable pub get_instance_status : String → Registry → InstanceStatus
get_instance_status account_id r = status_of (get r account_id)

abbrev error_of : Option ProxyInstance → String
error_of none = ""
error_of (some inst) = inst.error_text

-- GetInstanceError
unfoldable pub get_instance_error : String → Registry → String
get_instance_error account_id r = error_of (get r account_id)

abbrev state_of : Option ProxyInstance → Bool
state_of none = false
state_of (some inst) = inst.has_state

-- GetInstanceState, whether it is not nil
unfoldable pub get_instance_state : String → Registry → Bool
get_instance_state account_id r = state_of (get r account_id)

-- `if inst.Status == "running" && inst.stopChan != nil { close(…) }`
abbrev pub close_stop_chan : ProxyInstance → ProxyInstance
close_stop_chan inst = record inst {
  stop_chan_open = inst.stop_chan_open && not (is_running_status inst.status);
}

abbrev stop_at : String → Option ProxyInstance → Registry → Registry
stop_at account_id none r = r
stop_at account_id (some inst) r =
    put r account_id (record (close_stop_chan inst) { status = stopped })

-- StopInstance
unfoldable pub stop_instance : String → Registry → Registry
stop_instance account_id r = stop_at account_id (get r account_id) r

abbrev pub failed_instance : Account → String → Option ProxyInstance → ProxyInstance
failed_instance account reason none = record {
  account = account;
  has_state = false;
  status = error;
  error_text = reason;
  stop_chan_open = false;
}
failed_instance account reason (some inst) = record (close_stop_chan inst) {
  account = account;
  status = error;
  error_text = reason;
}

-- SetAccountError
unfoldable pub set_account_error : Account → String → Registry → Registry
set_account_error account reason r =
    put r account.id (failed_instance account reason (get r account.id))

-- startInstanceState, with a state: the older instance's channel is closed as it is replaced.
unfoldable pub start_instance_state : Account → Registry → Registry
start_instance_state account r = put r account.id (record {
  account = account;
  has_state = true;
  status = running;
  error_text = "";
  stop_chan_open = true;
})

abbrev refresh_failed_at : String → String → Option ProxyInstance → Registry → Registry
refresh_failed_at account_id reason none r = r
refresh_failed_at account_id reason (some inst) r =
    put r account_id (record inst { status = error; error_text = reason })

-- A failed round of tokenRefreshLoop, for the instance that the registry holds.
unfoldable pub refresh_failed : String → String → Registry → Registry
refresh_failed account_id reason r = refresh_failed_at account_id reason (get r account_id) r

-- normalizeAccountType
unfoldable pub normalize_account_type : String → String
normalize_account_type value =
    let v = to_lower (trim value) in
    if v == "individual" || (v == "business" || v == "enterprise") then v else ""

without : String → List String → List String
without preferred [] = []
without preferred (t ∷ rest) =
    let tail = without preferred rest in if t == preferred then tail else t ∷ tail

abbrev pub account_types : List String
account_types = "individual" ∷ "business" ∷ "enterprise" ∷ []

-- orderedAccountTypes
unfoldable pub ordered_account_types : String → List String
unfolding normalize_account_type without
ordered_account_types preferred_type =
    let preferred = normalize_account_type preferred_type in
    if preferred == "" then account_types else preferred ∷ without preferred account_types

-- premiumProbeModels
abbrev pub premium_probe_models : List String
premium_probe_models = "gpt-5.4" ∷ "gpt-5-codex" ∷ "claude-opus-4.7" ∷ "claude-opus-4.6" ∷ []

-- normalizeProbeModelKey
unfoldable pub normalize_probe_model_key : String → String
normalize_probe_model_key model = trim (to_lower model)

abbrev pub listed : String → List String → Bool
listed model = exists (λ m. m == model)

-- The loops of mergeBlockedModels, with the models that `seen` holds: `skips` is the test that the
-- loop makes before appendModel.
unfoldable pub append_models :
    (String → Bool) → List String → List String → List String × List String
unfolding normalize_probe_model_key
append_models skips seen [] = ([], seen)
append_models skips seen (model ∷ rest) =
    let normalized = normalize_probe_model_key model in
    let without_it = append_models skips seen rest in
    let (more, seen') = append_models skips (normalized ∷ seen) rest in
    if skips normalized || (normalized == "" || listed normalized seen)
    then without_it
    else (normalized ∷ more, seen')

abbrev is_premium : String → Bool
is_premium model = exists (λ m. normalize_probe_model_key m == model) premium_probe_models

-- mergeBlockedModels
unfoldable pub merge_blocked_models : List String → List String → List String
unfolding append_models
merge_blocked_models existing unsupported =
    let (kept, seen) = append_models is_premium [] existing in
    kept ++ (append_models (λ _. false) seen unsupported).0
