-- ===== src/Store/Account/Update.antt =====
-- store/account.go: UpdateAccount, whose updates are a map from names to JSON values.
pub mod Guards
use copilot_pool_gateway.Base.{
  ℤ, String, Bool, List, [], ◌∷◌, Option, none, some, ◌==◌, if◌then◌else◌, trim, first,
  update_first,
}
use copilot_pool_gateway.Base.StringMap.{StringMap, get}
use copilot_pool_gateway.Store.Disk.{Action, read, write, pure, ◌>>=◌, ◌>>◌}
use copilot_pool_gateway.Store.Account.{Account, has_id}

-- A value of `interface{}`. A number of any of Go's types stands for the integer that the
-- conversion to `int` or `int64` makes of it; an item of a list is a text, or `none` for any other
-- value.
pub data Value : Type 0 where
  text : String → Value
  flag : Bool → Value
  float64 : ℤ → Value
  int64 : ℤ → Value
  int : ℤ → Value
  texts : List String → Value
  items : List (Option String) → Value
  other : Value

pub texts_of_items : List (Option String) → List String
texts_of_items [] = []
texts_of_items (none ∷ rest) = texts_of_items rest
texts_of_items (some s ∷ rest) =
    let tail = texts_of_items rest in if s == "" then tail else s ∷ tail

-- stringSliceFromValue
unfoldable pub string_slice_from_value : Value → List String
unfolding texts_of_items
string_slice_from_value (texts v) = v
string_slice_from_value (items v) = texts_of_items v
string_slice_from_value _ = []

-- `if v, ok := updates[k].(string); ok { field = v }`
abbrev set_text : Option Value → String → String
set_text (some (text s)) old = s
set_text _ old = old

abbrev set_flag : Option Value → Bool → Bool
set_flag (some (flag b)) old = b
set_flag _ old = old

-- The type switch on `githubUserId`.
abbrev set_user_id : Option Value → ℤ → ℤ
set_user_id (some (float64 n)) old = n
set_user_id (some (int64 n)) old = n
set_user_id (some (int n)) old = n
set_user_id _ old = old

-- The type switch on `priority`, which has no case for `int64`.
abbrev set_priority : Option Value → ℤ → ℤ
set_priority (some (float64 n)) old = n
set_priority (some (int n)) old = n
set_priority _ old = old

abbrev set_slice : Option Value → List String → List String
set_slice none old = old
set_slice (some v) old = string_slice_from_value v

-- A new token forgets the blocked models.
abbrev clear_on_text : Option Value → List String → List String
clear_on_text (some (text s)) old = []
clear_on_text _ old = old

abbrev set_trimmed : Option Value → String → String
set_trimmed (some (text s)) old = trim s
set_trimmed _ old = old

-- The assignments to `accounts[i]`.
unfoldable pub apply_updates : StringMap Value → Account → Account
apply_updates updates a = record a {
  name = set_text (get updates "name") a.name;
  github_token = set_text (get updates "githubToken") a.github_token;
  github_login = set_text (get updates "githubLogin") a.github_login;
  github_user_id = set_user_id (get updates "githubUserId") a.github_user_id;
  account_type = set_text (get updates "accountType") a.account_type;
  enabled = set_flag (get updates "enabled") a.enabled;
  probe_status = set_text (get updates "probeStatus") a.probe_status;
  probe_checked_at = set_text (get updates "probeCheckedAt") a.probe_checked_at;
  probe_error = set_text (get updates "probeError") a.probe_error;
  worker_url = set_trimmed (get updates "workerUrl") a.worker_url;
  blocked_models =
      set_slice (get updates "blockedModels")
        (clear_on_text (get updates "githubToken") a.blocked_models);
  supported_models = set_slice (get updates "supportedModels") a.supported_models;
  unsupported_models = set_slice (get updates "unsupportedModels") a.unsupported_models;
  priority = set_priority (get updates "priority") a.priority;
}

unfoldable pub update_at :
    String → StringMap Value → List Account → Option Account → Action Account (Option Account)
update_at id updates accounts none = pure none
update_at id updates accounts (some a) = do
  write (update_first (has_id id) (apply_updates updates) accounts)
  pure (some (apply_updates updates a))

-- UpdateAccount
unfoldable pub update_account : String → StringMap Value → Action Account (Option Account)
unfolding update_at
update_account id updates = do
  accounts ← read
  update_at id updates accounts (first (has_id id) accounts)
