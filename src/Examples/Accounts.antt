-- ===== src/Examples/Accounts.antt =====
-- Two accounts and their file.
use copilot_pool_gateway.Base.{pos, true, [], ◌∷◌, List}
use copilot_pool_gateway.Store.Disk.{Disk, object, lands}
use copilot_pool_gateway.Store.Account.{Account}

abbrev pub alice : Account
alice = record {
  id = "a1";
  name = "Alice";
  github_token = "ghu_a";
  github_login = "alice";
  github_user_id = pos 11;
  blocked_models = [];
  supported_models = [];
  unsupported_models = [];
  account_type = "individual";
  api_key = "sk-a";
  enabled = true;
  created_at = "2025-01-01T00:00:00Z";
  priority = pos 0;
  probe_status = "";
  probe_checked_at = "";
  probe_error = "";
  worker_url = "";
  worker_managed = true;
  worker_port = 0;
  worker_pid = 0;
  worker_home = "";
}

abbrev pub bob : Account
bob = record alice {
  id = "b2";
  name = "Bob";
  github_login = "bob";
  github_user_id = pos 22;
  api_key = "sk-b";
}

abbrev pub two_accounts : List Account
two_accounts = alice ∷ bob ∷ []

abbrev pub disk : Disk Account
disk = record { file = object two_accounts; fate = lands }
