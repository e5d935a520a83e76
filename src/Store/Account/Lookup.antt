-- ===== src/Store/Account/Lookup.antt =====
-- store/account.go: GetAccounts, GetAccount, GetAccountByApiKey, GetEnabledAccounts.
use copilot_pool_gateway.Base.{String, ◌==◌, List, Option, first, keep}
use copilot_pool_gateway.Store.Disk.{Action, read, pure, ◌>>=◌}
use copilot_pool_gateway.Store.Account.{Account, has_id}

unfoldable pub get_accounts : Action Account (List Account)
get_accounts = read

unfoldable pub get_account : String → Action Account (Option Account)
unfolding get_accounts
get_account id = do accounts ← get_accounts; pure (first (has_id id) accounts)

unfoldable pub get_account_by_api_key : String → Action Account (Option Account)
unfolding get_accounts
get_account_by_api_key api_key = do
  accounts ← get_accounts
  pure (first (λ a. a.api_key == api_key) accounts)

unfoldable pub get_enabled_accounts : Action Account (List Account)
unfolding get_accounts
get_enabled_accounts = do accounts ← get_accounts; pure (keep (λ a. a.enabled) accounts)
