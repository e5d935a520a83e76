-- ===== src/Store/Account/Edit.antt =====
-- store/account.go: DeleteAccount, RegenerateApiKey, UpdateAccountWorker, ClearAccountWorker.
pub mod Worker
use copilot_pool_gateway.Base.{
  ℕ, String, true, false, not, List, Option, none, some, ◌==◌, trim, first, update_first, keep,
}
use copilot_pool_gateway.Store.Disk.{Action, read, write, pure, ◌>>=◌, ◌>>◌}
use copilot_pool_gateway.Store.Account.{Account, has_id}

-- DeleteAccount
unfoldable pub delete_account : String → Action Account (Unit {0})
delete_account id = do accounts ← read; write (keep (λ a. not (has_id id a)) accounts)

-- Rewrites the first account with the ID, if there is one, and returns `result` where it did.
unfoldable pub edit_at :
    String → (Account → Account) → List Account → Option Account → Action Account (Unit {0})
edit_at id f accounts none = pure tt
edit_at id f accounts (some a) = write (update_first (has_id id) f accounts)

abbrev pub with_key : String → Account → Account
with_key new_key a = record a { api_key = new_key }

unfoldable pub regenerate_at :
    String → String → List Account → Option Account → Action Account String
regenerate_at id new_key accounts none = pure ""
regenerate_at id new_key accounts (some a) = do
  write (update_first (has_id id) (with_key new_key) accounts)
  pure new_key

-- RegenerateApiKey; the second argument is the text of `uuid.New()`.
unfoldable pub regenerate_api_key : String → String → Action Account String
unfolding regenerate_at
regenerate_api_key id uuid = do
  accounts ← read
  regenerate_at id (Prim.Native.String.◌++◌ "sk-" uuid) accounts (first (has_id id) accounts)

abbrev pub with_worker : String → String → ℕ → ℕ → Account → Account
with_worker worker_url home port pid a = record a {
  worker_url = trim worker_url;
  worker_home = home;
  worker_port = port;
  worker_pid = pid;
  worker_managed = true;
}

-- UpdateAccountWorker
unfoldable pub update_account_worker : String → String → String → ℕ → ℕ → Action Account (Unit {0})
unfolding edit_at
update_account_worker id worker_url home port pid = do
  accounts ← read
  edit_at id (with_worker worker_url home port pid) accounts (first (has_id id) accounts)

abbrev pub without_worker : Account → Account
without_worker a = record a {
  worker_url = "";
  worker_home = "";
  worker_port = 0;
  worker_pid = 0;
  worker_managed = false;
}

-- ClearAccountWorker
unfoldable pub clear_account_worker : String → Action Account (Unit {0})
unfolding edit_at
clear_account_worker id = do
  accounts ← read
  edit_at id without_worker accounts (first (has_id id) accounts)
