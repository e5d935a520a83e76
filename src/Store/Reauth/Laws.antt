-- ===== src/Store/Reauth/Laws.antt =====
-- What a session's readers find after it was created or updated.
use copilot_pool_gateway.Base.{String, ◌≡◌, List, some, arith, ◌==◌, if◌then◌else◌}
use copilot_pool_gateway.Base.Keyed.{first-replace_or_append}
use copilot_pool_gateway.Store.Disk.{Disk, ok, contents, read, write, lands}
use copilot_pool_gateway.Store.Reauth.{
  PublicReauthSession, session_id, with_session, update_public_reauth_session,
  get_public_reauth_session,
}

-- On a readable file and a disk that takes the write, a session that was updated is found under its
-- ID exactly as it was written, whether it was there before or not, and every other ID finds what
-- it found before.
pub get_public_reauth_session-update :
    (d : Disk PublicReauthSession) (xs : List PublicReauthSession) (updated : PublicReauthSession)
    → contents d.file ≡ some xs
    → d.fate ≡ lands
    → (j : String)
    → (get_public_reauth_session j (update_public_reauth_session updated d).1).0
      ≡ (if updated.id == j then ok (some updated) else (get_public_reauth_session j d).0)
unfolding update_public_reauth_session get_public_reauth_session with_session read write contents
get_public_reauth_session-update d xs updated readable written j =
    ground (arith, first-replace_or_append session_id updated j xs)
