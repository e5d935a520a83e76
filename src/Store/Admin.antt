-- ===== src/Store/Admin.antt =====
-- store/admin.go: the administrator's password file and the console's sessions. bcrypt is a third
-- party's: `generate` is `bcrypt.GenerateFromPassword`, `none` where it fails, and `matches` is
-- `bcrypt.CompareHashAndPassword` without an error. Times count seconds; a token is the text of
-- `uuid.New()`.
pub mod Sessions
use copilot_pool_gateway.Base.{
  ℕ, ◌+◌, ◌*◌, String, Bool, true, false, Option, none, some, ◌==◌, ltb, if◌then◌else◌,
}
use copilot_pool_gateway.Base.StringMap.{StringMap, get, put, remove}

pub record AdminData : Type 0 where
  pub username : String
  pub password_hash : String

-- The file as its readers see it.
pub data AdminFile : Type 0 where
  unreadable blank malformed : AdminFile
  holds : AdminData → AdminFile

pub record Console : Type 0 where
  pub file : AdminFile
  pub writable : Bool
  pub sessions : StringMap ℕ

-- sessionTTL, in seconds
abbrev pub session_ttl : ℕ
session_ttl = 7 * 24 * 3600

-- IsSetupRequired
unfoldable pub is_setup_required : AdminFile → Bool
is_setup_required (holds admin) = admin.password_hash == ""
is_setup_required _ = true

-- ValidateSession: a session past its time is deleted.
abbrev validate_at : String → ℕ → Console → Option ℕ → Bool × Console
validate_at token now c none = (false, c)
validate_at token now c (some expires_at) =
    if ltb expires_at now
    then (false, record c { sessions = remove c.sessions token })
    else (true, c)

unfoldable pub validate_session : String → ℕ → Console → Bool × Console
validate_session token now c = validate_at token now c (get c.sessions token)

module _ (generate : String → Option String) (matches : String → String → Bool) where
  abbrev set_up : String → Console → Option String → Bool × Console
  set_up username c none = (false, c)
  set_up username c (some hash) =
      if c.writable
      then (true, record c { file = holds (record { username = username; password_hash = hash }) })
      else (false, c)

  -- SetupAdmin, true where it returns no error. A failing write leaves the file as it was.
  unfoldable pub setup_admin : String → String → Console → Bool × Console
  setup_admin username password c = set_up username c (generate password)

  abbrev log_in : String → String → String → ℕ → Console → AdminFile → Option String × Console
  log_in username password token now c (holds admin) =
      if admin.username == username
      then if matches admin.password_hash password
        then (some token, record c { sessions = put c.sessions token (now + session_ttl) })
        else (none, c)
      else (none, c)
  log_in username password token now c _ = (none, c)

  -- LoginAdmin: the session's token, `none` where it returns an error.
  unfoldable pub login_admin : String → String → String → ℕ → Console → Option String × Console
  login_admin username password token now c = log_in username password token now c c.file
