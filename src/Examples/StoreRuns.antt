-- ===== src/Examples/StoreRuns.antt =====
-- The theorems on the files, at the two accounts.
use copilot_pool_gateway.Base.{
  ◌+◌, ◌&&◌, ◌||◌, leb, trim, to_lower, is_space, lower_char, String, ◌≡◌, refl, Bool, true, false,
  [], ◌∷◌, Option, none, some, arith, ◌==◌, if◌then◌else◌, first, pos, eq_iff,
}
use copilot_pool_gateway.Base.StringMap.{get}
use copilot_pool_gateway.Store.Disk.{Disk, File, ok, contents, lands, object}
use copilot_pool_gateway.Store.Account.Lookup.{get_account}
use copilot_pool_gateway.Store.Account.Models.{
  get_blocked_account_ids, is_model_blocked, block_model_for_account, normalize_model_key,
}
use copilot_pool_gateway.Store.Account.Models.Exact.{
  is_set, get_blocked_account_ids-agrees, block_model_for_account-exact,
}
use copilot_pool_gateway.Store.Account.Upsert.{
  Login, Fresh, upsert_matches, matches_github_identity, upsert_account, refresh_account,
}
use copilot_pool_gateway.Store.Account.Upsert.Laws.{Refreshed, upsert_account-refreshes}
use copilot_pool_gateway.Store.Account.Update.{apply_updates, flag, update_account}
use copilot_pool_gateway.Store.Account.Update.Guards.{Untouched, update_account-updates}
use copilot_pool_gateway.Store.Account.Edit.{
  update_account_worker, clear_account_worker, without_worker,
}
use copilot_pool_gateway.Store.Account.Edit.Worker.{clear_account_worker-update}
use copilot_pool_gateway.Store.Account.Unique.{deletes, step, IsSound, step-IsSound}
use copilot_pool_gateway.Store.Admin.{
  AdminFile, Console, login_admin, validate_session, setup_admin, session_ttl,
}
use copilot_pool_gateway.Store.Admin.Sessions.{validate_session-login}
use copilot_pool_gateway.Store.ModelMap.{ModelMapping, to_display_id, to_copilot_id, read_model_map}
use copilot_pool_gateway.Store.ModelMap.Laws.{to_copilot_id-to_display_id}
use copilot_pool_gateway.Store.Reauth.{
  PublicReauthSession, get_public_reauth_session, update_public_reauth_session,
}
use copilot_pool_gateway.Store.Reauth.Laws.{get_public_reauth_session-update}
use copilot_pool_gateway.Examples.Accounts.{alice, two_accounts, disk}

readable : contents disk.file ≡ some two_accounts
unfolding contents
readable = refl

step-IsSound_example : IsSound (step (deletes "a1") disk)
unfolding contents
step-IsSound_example =
    step-IsSound (deletes "a1") disk tt (record { file = (refl, (refl, tt)); fate = tt })

get_blocked_account_ids-agrees_example :
    is_set (get (get_blocked_account_ids disk "gpt-5") "a1") ≡ is_model_blocked disk "a1" "gpt-5"
get_blocked_account_ids-agrees_example =
    get_blocked_account_ids-agrees disk two_accounts "a1" "gpt-5" readable (refl, (refl, tt))

clear_account_worker-update_example :
    (get_account "a1"
      (clear_account_worker "a1"
        (update_account_worker "a1" "http://127.0.0.1:9100" "/w/a1" 9100 42 disk).1).1).0
    ≡ (if "a1" == "a1" then ok (some (without_worker alice)) else (get_account "a1" disk).0)
clear_account_worker-update_example =
    clear_account_worker-update disk two_accounts readable refl "a1" "http://127.0.0.1:9100" "/w/a1"
      9100 42 alice refl "a1"

update_account-updates_example :
    ((update_account "a1" (("enabled", flag false) ∷ []) disk).0
      ≡ ok (some (apply_updates (("enabled", flag false) ∷ []) alice)))
    × Untouched alice (apply_updates (("enabled", flag false) ∷ []) alice)
    × ((get_account "b2" (update_account "a1" (("enabled", flag false) ∷ []) disk).1).0 ≡ (
        if "a1" == "b2"
        then ok (some (apply_updates (("enabled", flag false) ∷ []) alice))
        else (get_account "b2" disk).0))
update_account-updates_example =
    update_account-updates "a1" (("enabled", flag false) ∷ []) disk two_accounts alice readable refl
      refl "b2"

model_named : (normalize_model_key "GPT-5 " == "") ≡ false
unfolding normalize_model_key trim to_lower is_space lower_char
model_named = refl

block_model_for_account-exact_example :
    is_model_blocked (block_model_for_account "a1" "GPT-5 " disk).1 "a1" "gpt-5" ≡ (
      is_model_blocked disk "a1" "gpt-5"
      || ("a1" == "a1" && normalize_model_key "gpt-5" == normalize_model_key "GPT-5 "))
block_model_for_account-exact_example =
    block_model_for_account-exact "GPT-5 " model_named disk two_accounts "a1" alice readable refl
      refl "a1" "gpt-5"

abbrev login : Login
login = record {
  existing_id = "";
  name = "Alice";
  github_token = "ghu_new";
  account_type = "";
  github_login = "alice";
  github_user_id = pos 11;
}

abbrev supplied : Fresh
supplied = record { id = "c3"; key = "sk-c"; now = "2025-02-02T00:00:00Z" }

matches : first (upsert_matches login) two_accounts ≡ some alice
unfolding upsert_matches matches_github_identity
matches = refl

upsert_account-refreshes_example :
    ((upsert_account login supplied disk).0 ≡ ok (refresh_account login alice, false))
    × ((get_account "a1" (upsert_account login supplied disk).1).0 ≡ (
        if "a1" == "a1"
        then ok (some (refresh_account login alice))
        else (get_account "a1" disk).0))
    × Refreshed login alice (refresh_account login alice)
upsert_account-refreshes_example =
    upsert_account-refreshes login supplied disk two_accounts readable refl (refl, (refl, tt)) alice
      matches "a1"

-- A stand-in for bcrypt, which keeps the password.
abbrev plain : String → Option String
plain password = some password

abbrev same_text : String → String → Bool
same_text hash password = hash == password

abbrev empty_console : Console
empty_console = record { file = AdminFile.blank; writable = true; sessions = [] }

same_text_sound :
    (password hash : String) → plain password ≡ some hash → same_text hash password ≡ true
same_text_sound password hash e = ground (arith, eq_iff hash password)

validate_session-login_example :
    let c' = (setup_admin plain same_text "root" "secret" empty_console).1 in
    ((login_admin plain same_text "root" "secret" "t1" 100 c').0 ≡ some "t1")
    × ((validate_session "t1" 200 (login_admin plain same_text "root" "secret" "t1" 100 c').1).0 ≡ (
        if "t1" == "t1"
        then leb 200 (100 + session_ttl)
        else (validate_session "t1" 200 empty_console).0))
validate_session-login_example =
    validate_session-login plain same_text same_text_sound "root" "secret" "secret" "t1" "t1"
      empty_console 100 200 refl refl

abbrev mapping : ModelMapping
mapping = record { copilot_id = "gpt-5"; display_id = "best"; display_name = "Best" }

abbrev no_mappings : Disk ModelMapping
no_mappings = record { file = File.blank; fate = lands }

abbrev one_mapping : Disk ModelMapping
one_mapping = record { file = object (mapping ∷ []); fate = lands }

to_copilot_id-to_display_id_example :
    to_copilot_id one_mapping (to_display_id one_mapping "gpt-5") ≡ "gpt-5"
unfolding read_model_map
to_copilot_id-to_display_id_example =
    to_copilot_id-to_display_id one_mapping "gpt-5" mapping (refl, tt) refl

abbrev held_console : Console
held_console = record {
  file = AdminFile.holds (record { username = "root"; password_hash = "secret" });
  writable = true;
  sessions = ("t0", 50) ∷ [];
}

too_old : (validate_session "t0" 60 held_console).0 ≡ false
unfolding validate_session get
too_old = refl

abbrev newcomer : Login
newcomer = record login { github_login = "carol"; github_user_id = pos 33 }

no_match : first (upsert_matches newcomer) two_accounts ≡ none
unfolding upsert_matches matches_github_identity to_lower lower_char
no_match = refl

abbrev pending : PublicReauthSession
pending = record {
  id = "r1";
  account_id = "a1";
  account_name = "Alice";
  account_type = "individual";
  status = "pending";
  auth_session_id = "";
  user_code = "";
  verification_uri = "";
  created_at = "2025-02-02T00:00:00Z";
  expires_at = "2025-02-02T01:00:00Z";
  completed_at = "";
  error = "";
}

abbrev reauth_disk : Disk PublicReauthSession
reauth_disk = record { file = object (pending ∷ []); fate = lands }

reauth_readable : contents reauth_disk.file ≡ some (pending ∷ [])
unfolding contents
reauth_readable = refl

get_public_reauth_session-update_example :
    (get_public_reauth_session "r1"
      (update_public_reauth_session (record pending { status = "completed" }) reauth_disk).1).0
    ≡ (if "r1" == "r1"
        then ok (some (record pending { status = "completed" }))
        else (get_public_reauth_session "r1" reauth_disk).0)
get_public_reauth_session-update_example =
    get_public_reauth_session-update reauth_disk (pending ∷ [])
      (record pending { status = "completed" }) reauth_readable refl "r1"
