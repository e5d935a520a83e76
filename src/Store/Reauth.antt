-- ===== src/Store/Reauth.antt =====
-- store/public_reauth.go: the sessions of public re-authentication, in a file of their own. The
-- formatted times and the text of `uuid.New()` are arguments.
pub mod Laws
use copilot_pool_gateway.Base.{
  String, List, [], ◌∷◌, ◌++◌, Option, none, some, first, exists, update_first, if◌then◌else◌,
}
use copilot_pool_gateway.Base.Keyed.{has_key}
use copilot_pool_gateway.Store.Disk.{Action, read, write, pure, ◌>>=◌, ◌>>◌}
use copilot_pool_gateway.Store.Account.{Account}

pub record PublicReauthSession : Type 0 where
  pub id : String
  pub account_id : String
  pub account_name : String
  pub account_type : String
  pub status : String
  pub auth_session_id : String
  pub user_code : String
  pub verification_uri : String
  pub created_at : String
  pub expires_at : String
  pub completed_at : String
  pub error : String

abbrev pub session_id : PublicReauthSession → String
session_id s = s.id

unfoldable pub new_session : Account → String → String → String → PublicReauthSession
new_session account uuid created_at expires_at = record {
  id = uuid;
  account_id = account.id;
  account_name = account.name;
  account_type = account.account_type;
  status = "ready";
  auth_session_id = "";
  user_code = "";
  verification_uri = "";
  created_at = created_at;
  expires_at = expires_at;
  completed_at = "";
  error = "";
}

-- CreatePublicReauthSession
unfoldable pub create_public_reauth_session :
    Account → String → String → String → Action PublicReauthSession PublicReauthSession
unfolding new_session
create_public_reauth_session account uuid created_at expires_at = do
  sessions ← read
  write (sessions ++ new_session account uuid created_at expires_at ∷ [])
  pure (new_session account uuid created_at expires_at)

-- GetPublicReauthSession
unfoldable pub get_public_reauth_session :
    String → Action PublicReauthSession (Option PublicReauthSession)
get_public_reauth_session id = do sessions ← read; pure (first (has_key session_id id) sessions)

-- The loop of UpdatePublicReauthSession: replace in place, or append.
unfoldable pub with_session :
    PublicReauthSession → List PublicReauthSession → List PublicReauthSession
with_session updated sessions =
    if exists (has_key session_id updated.id) sessions
    then update_first (has_key session_id updated.id) (λ _. updated) sessions
    else sessions ++ updated ∷ []

-- UpdatePublicReauthSession
unfoldable pub update_public_reauth_session :
    PublicReauthSession → Action PublicReauthSession (Unit {0})
unfolding with_session
update_public_reauth_session updated = do sessions ← read; write (with_session updated sessions)
