-- ===== src/Store/Account/Models.antt =====
-- store/account.go: which models an account may not serve.
pub mod Exact
use copilot_pool_gateway.Base.{
  ℕ, String, ◌≡◌, refl, Bool, true, false, ◌||◌, List, [], ◌∷◌, ◌++◌, Option, none, some, arith,
  ◌==◌, eq_iff, if◌then◌else◌, trim, to_lower, trim_idem, to_lower_idem, to_lower-trim, exists,
  first, update_first,
}
use copilot_pool_gateway.Base.StringMap.{StringMap, put}
use copilot_pool_gateway.Store.Disk.{Disk, Action, contents, read, write, pure, ◌>>=◌}
use copilot_pool_gateway.Store.Account.{Account, has_id}

-- normalizeModelKey
unfoldable pub normalize_model_key : String → String
normalize_model_key model = trim (to_lower model)

pub normalize_model_key_idem :
    (model : String) → normalize_model_key (normalize_model_key model) ≡ normalize_model_key model
unfolding normalize_model_key
normalize_model_key_idem model =
    rw (to_lower-trim (to_lower model), to_lower_idem model, trim_idem (to_lower model))

abbrev pub lists_model : String → List String → Bool
lists_model normalized = exists (λ entry. normalize_model_key entry == normalized)

-- hasBlockedModel
unfoldable pub has_blocked_model : Account → String → Bool
has_blocked_model account model =
    let normalized = normalize_model_key model in
    if normalized == ""
    then false
    else lists_model normalized account.blocked_models
      || lists_model normalized account.unsupported_models

abbrev pub blocked_in : String → Option Account → Bool
blocked_in model none = false
blocked_in model (some a) = has_blocked_model a model

abbrev pub blocked_among : String → String → Option (List Account) → Bool
blocked_among id model none = false
blocked_among id model (some accounts) = blocked_in model (first (has_id id) accounts)

-- IsModelBlocked: the first account with the ID decides.
unfoldable pub is_model_blocked : Disk Account → String → String → Bool
is_model_blocked d id model = blocked_among id model (contents d.file)

unfoldable pub collect_blocked : String → List Account → StringMap Bool → StringMap Bool
collect_blocked normalized [] blocked = blocked
collect_blocked normalized (a ∷ rest) blocked =
    collect_blocked normalized rest
      (if has_blocked_model a normalized then put blocked a.id true else blocked)

abbrev collect_from : String → Option (List Account) → StringMap Bool
collect_from normalized none = []
collect_from normalized (some accounts) = collect_blocked normalized accounts []

-- GetBlockedAccountIDs
unfoldable pub get_blocked_account_ids : Disk Account → String → StringMap Bool
get_blocked_account_ids d model =
    let normalized = normalize_model_key model in
    if normalized == "" then [] else collect_from normalized (contents d.file)

abbrev pub append_blocked : String → Account → Account
append_blocked normalized a = record a { blocked_models = a.blocked_models ++ normalized ∷ [] }

-- The body of the loop, at the first account with the ID.
unfoldable pub block_at :
    String → String → List Account → Option Account → Action Account (Unit {0})
block_at id normalized accounts none = pure tt
block_at id normalized accounts (some a) =
    if has_blocked_model a normalized
    then pure tt
    else write (update_first (has_id id) (append_blocked normalized) accounts)

-- BlockModelForAccount
unfoldable pub block_model_for_account : String → String → Action Account (Unit {0})
unfolding block_at
block_model_for_account id model =
    let normalized = normalize_model_key model in
    if normalized == ""
    then pure tt
    else do accounts ← read; block_at id normalized accounts (first (has_id id) accounts)
