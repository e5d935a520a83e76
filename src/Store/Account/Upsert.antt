-- ===== src/Store/Account/Upsert.antt =====
-- store/account.go: AddAccount and UpsertAccount. The two texts of `uuid.New()` and the time are
-- arguments. `strings.EqualFold` is equality of lower cases.
pub mod Laws
use copilot_pool_gateway.Base.{
  ℤ, pos, eqb_ℤ, String, Bool, true, false, not, ◌&&◌, ◌||◌, List, [], ◌∷◌, ◌++◌, Option, none,
  some, ◌==◌, if◌then◌else◌, to_lower, first, update_first,
}
use copilot_pool_gateway.Store.Disk.{Action, read, write, pure, ◌>>=◌, ◌>>◌}
use copilot_pool_gateway.Store.Account.{Account}

-- The arguments of UpsertAccount.
pub record Login : Type 0 where
  pub existing_id : String
  pub name : String
  pub github_token : String
  pub account_type : String
  pub github_login : String
  pub github_user_id : ℤ

-- What the environment supplies for a new account.
pub record Fresh : Type 0 where
  pub id : String
  pub key : String
  pub now : String

abbrev or_else : String → String → String
or_else new old = if new == "" then old else new

-- matchesGithubIdentity
unfoldable pub matches_github_identity : Account → String → ℤ → Bool
matches_github_identity account github_login github_user_id =
    if not (eqb_ℤ github_user_id (pos 0))
      && not (eqb_ℤ account.github_user_id (pos 0))
      && eqb_ℤ account.github_user_id github_user_id
    then true
    else not (github_login == "")
      && not (account.github_login == "")
      && to_lower account.github_login == to_lower github_login

-- The test of the loop: by ID where one is given, else by GitHub identity.
unfoldable pub upsert_matches : Login → Account → Bool
unfolding matches_github_identity
upsert_matches l a =
    (not (l.existing_id == "") && a.id == l.existing_id)
    || (l.existing_id == "" && matches_github_identity a l.github_login l.github_user_id)

-- The assignments to `accounts[i]`.
unfoldable pub refresh_account : Login → Account → Account
refresh_account l a = record a {
  name = or_else l.name a.name;
  github_token = l.github_token;
  github_login = or_else l.github_login a.github_login;
  github_user_id = if eqb_ℤ l.github_user_id (pos 0) then a.github_user_id else l.github_user_id;
  blocked_models = [];
  supported_models = [];
  unsupported_models = [];
  account_type = or_else l.account_type a.account_type;
  probe_status = "";
  probe_checked_at = "";
  probe_error = "";
}

unfoldable pub new_account : Login → Fresh → Account
new_account l f = record {
  id = f.id;
  name = l.name;
  github_token = l.github_token;
  github_login = l.github_login;
  github_user_id = l.github_user_id;
  blocked_models = [];
  supported_models = [];
  unsupported_models = [];
  account_type = l.account_type;
  api_key = Prim.Native.String.◌++◌ "sk-" f.key;
  enabled = true;
  created_at = f.now;
  priority = pos 0;
  probe_status = "";
  probe_checked_at = "";
  probe_error = "";
  worker_url = "";
  worker_managed = false;
  worker_port = 0;
  worker_pid = 0;
  worker_home = "";
}

-- After the loop: a match is refreshed in place, otherwise a new account is appended.
unfoldable pub upsert_at :
    Login → Fresh → List Account → Option Account → Action Account (Account × Bool)
upsert_at l f accounts none = do
  write (accounts ++ new_account l f ∷ [])
  pure (new_account l f, true)
upsert_at l f accounts (some a) = do
  write (update_first (upsert_matches l) (refresh_account l) accounts)
  pure (refresh_account l a, false)

-- UpsertAccount: the account, and whether it is new.
unfoldable pub upsert_account : Login → Fresh → Action Account (Account × Bool)
unfolding upsert_at
upsert_account l f = do accounts ← read; upsert_at l f accounts (first (upsert_matches l) accounts)

-- AddAccount
unfoldable pub add_account : String → String → String → Fresh → Action Account Account
unfolding upsert_account
add_account name github_token account_type f = do
  result ←
      upsert_account
        (record {
          existing_id = "";
          name = name;
          github_token = github_token;
          account_type = account_type;
          github_login = "";
          github_user_id = pos 0;
        })
        f
  pure result.0
