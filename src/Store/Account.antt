-- ===== src/Store/Account.antt =====
-- store/account.go: the accounts and their file. Ports and process IDs are never negative here: the
-- code treats a negative one as it treats 0.
pub mod Lookup
pub mod Models
pub mod Upsert
pub mod Update
pub mod Edit
pub mod Unique
use copilot_pool_gateway.Base.{ℕ, ℤ, String, Bool, List}
use copilot_pool_gateway.Base.Keyed.{has_key}

pub record Account : Type 0 where
  pub id : String
  pub name : String
  pub github_token : String
  pub github_login : String
  pub github_user_id : ℤ
  pub blocked_models : List String
  pub supported_models : List String
  pub unsupported_models : List String
  pub account_type : String
  pub api_key : String
  pub enabled : Bool
  pub created_at : String
  pub priority : ℤ
  pub probe_status : String
  pub probe_checked_at : String
  pub probe_error : String
  pub worker_url : String
  pub worker_managed : Bool
  pub worker_port : ℕ
  pub worker_pid : ℕ
  pub worker_home : String

abbrev pub account_id : Account → String
account_id a = a.id

-- The test `a.ID == id` of the loops over the accounts.
abbrev pub has_id : String → Account → Bool
has_id = has_key account_id
