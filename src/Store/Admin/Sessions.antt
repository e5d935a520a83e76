-- ===== src/Store/Admin/Sessions.antt =====
-- A session lives from its login for seven days, and a wrong password opens none.
use copilot_pool_gateway.Base.{
  ℕ, ◌+◌, ◌≤◌, String, ◌≡◌, Bool, true, false, Option, none, some, arith, ◌==◌, eq_refl, leb,
  if◌then◌else◌,
}
use copilot_pool_gateway.Base.StringMap.{get-put, get-remove}
use copilot_pool_gateway.Store.Admin.{
  Console, AdminData, holds, session_ttl, validate_session, setup_admin, login_admin,
}

module _ (generate : String → Option String) (matches : String → String → Bool)
    (sound : (password hash : String)
      → generate password ≡ some hash
      → matches hash password ≡ true) where
  -- Where bcrypt accepts each password against the hash that it made of it: after a setup that succeeds, the same name and password log in, and the token is then valid
  -- exactly up to seven days after the login; every other token is valid when it was before.
  pub validate_session-login :
      (username password hash token other : String) (c : Console) (now later : ℕ)
      → generate password ≡ some hash
      → c.writable ≡ true
      → let c' = (setup_admin generate matches username password c).1 in
        ((login_admin generate matches username password token now c').0 ≡ some token)
        × ((validate_session other later
              (login_admin generate matches username password token now c').1).0
            ≡ (if token == other
                then leb later (now + session_ttl)
                else (validate_session other later c).0))
  unfolding setup_admin login_admin validate_session
  validate_session-login username password hash token other c now later g w = (
    ground (arith, sound password hash g, eq_refl username),
    ground (
      arith,
      sound password hash g,
      eq_refl username,
      get-put c.sessions token other (now + session_ttl),
    ),
  )

-- A name or password that does not match the file opens no session and changes nothing.
pub login_admin-refuses :
    (generate : String → Option String) (matches : String → String → Bool)
    (username password token : String) (now : ℕ) (c : Console) (admin : AdminData)
    → c.file ≡ holds admin
    → (if admin.username == username then matches admin.password_hash password else false) ≡ false
    → login_admin generate matches username password token now c ≡ (none, c)
unfolding login_admin
login_admin-refuses generate matches username password token now c admin held wrong = ground arith

-- A session that was refused for its age stays refused at every later time.
pub validate_session-expired :
    (token : String) (now later : ℕ) (c : Console)
    → (validate_session token now c).0 ≡ false
    → now ≤ later
    → (validate_session token later (validate_session token now c).1).0 ≡ false
unfolding validate_session
validate_session-expired token now later c refused order =
    ground (arith, get-remove c.sessions token token, eq_refl token)
