-- ===== src/Auth/Service/Entry.antt =====
-- `register`, `login` and `bootstrap_first_admin` of AuthService.
use domains_manager.Base.{
  ℕ, String, Bool, true, false, ◌&&◌, not, Option, none, some, [], eqb, is_none, if◌then◌else◌,
}
use domains_manager.Base.Table.{map_opt}
use domains_manager.Base.Result.{
  Error, Result, ok, err, invalid_credentials, duplicate_record, username_taken,
  registration_disabled, or_raise, guard, ◌>>=◌, ◌>>◌,
}
use domains_manager.Auth.{User, AuditEvent, AuthTables}
use domains_manager.Auth.Users.{
  count_users, get_by_username, add_user, set_last_login, logged_in, add_audit, try_claim,
}
use domains_manager.Auth.Security.{Crypto, normalize_username, hash_password}
use domains_manager.Auth.Service.{
  AuthService, AuthContext, Draws, AuthenticationResult, create_session, audit,
}

-- The record of a new user.
abbrev pub new_user :
    Draws → String → String → String → Option String → Option ℕ → String → ℕ → User
new_user x display normalized hash email verified role now = record {
  id = x.user_id;
  username = display;
  username_normalized = normalized;
  password_hash = hash;
  password_auth_enabled = true;
  username_setup_required = false;
  email = email;
  pending_email = none;
  email_verified_at = verified;
  role = role;
  preferences = [];
  is_active = true;
  banned_at = none;
  ban_reason = none;
  banned_by_user_id = none;
  password_changed_at = now;
  last_login_at = none;
  created_at = now;
  updated_at = now;
}

-- A duplicate means that the name is taken.
abbrev pub taken_if_duplicate : Error → Error
taken_if_duplicate duplicate_record = username_taken
taken_if_duplicate cause = cause

-- The transaction of `register`.
unfoldable pub register_locked :
    AuthService
    → Draws
    → User
    → AuthContext
    → ℕ
    → AuthTables
    → Result (AuthenticationResult × AuthTables)
register_locked s x user context now db = do
  guard (is_none (get_by_username user.username_normalized db)) username_taken
  db1 ← add_user user db
  (result, db2) ← create_session s x user context now db1
  ok (result, add_audit (audit "user.registered" now context user.id user.id "user") db2)

-- `register`
unfoldable pub register :
    AuthService
    → Draws
    → String
    → String
    → Option String
    → AuthContext
    → ℕ
    → AuthTables
    → Result (AuthenticationResult × AuthTables)
register s x username password email context now db = do
  guard s.registration_enabled registration_disabled
  (display, normalized) ← normalize_username s.crypto username
  hash ← hash_password s.crypto x.salt password
  elim (register_locked s x
      (new_user x display normalized hash email (map_opt (λ e. now) email) "user" now) context now
      db) [ ok done ↦ ok done | err cause ↦ err (taken_if_duplicate cause) ]

-- The transaction of `login`, for a name that is well formed.
unfoldable pub login_named :
    AuthService
    → Draws
    → String
    → String
    → AuthContext
    → ℕ
    → AuthTables
    → Result (AuthenticationResult × AuthTables)
login_named s x normalized password context now db = do
  user ← or_raise (get_by_username normalized db) invalid_credentials
  guard user.password_auth_enabled invalid_credentials
  guard (s.crypto.verify password user.password_hash) invalid_credentials
  guard (user.is_active && is_none user.banned_at) invalid_credentials
  db1 ← set_last_login user.id now db
  (result, db2) ← create_session s x user context now db1
  ok (
    record { user = logged_in now result.user; tokens = result.tokens },
    add_audit (audit "session.created" now context user.id user.id "user") db2,
  )

-- `login`; the verification against the dummy hash has no effect.
unfoldable pub login :
    AuthService
    → Draws
    → String
    → String
    → AuthContext
    → ℕ
    → AuthTables
    → Result (AuthenticationResult × AuthTables)
login s x username password context now db = elim (normalize_username s.crypto username) [
  | err cause ↦ err invalid_credentials
  | ok (display, normalized) ↦ login_named s x normalized password context now db
]

abbrev pub bootstrap_event : User → ℕ → AuditEvent
bootstrap_event user now = record {
  event_type = "user.bootstrap_admin_created";
  occurred_at = now;
  actor_user_id = none;
  target_type = some "user";
  target_id = some user.id;
  request_id = none;
  ip_hash = none;
  metadata = [];
}

-- The second transaction of `bootstrap_first_admin`; a duplicate rolls it back.
unfoldable pub bootstrap_locked : User → ℕ → AuthTables → Bool × AuthTables
bootstrap_locked user now db =
    let (claimed, db1) = try_claim "bootstrap_admin" now db in
    if not claimed
    then (false, db)
    else if eqb (count_users db1) 0
    then elim (add_user user db1) [
      | ok db2 ↦ (true, add_audit (bootstrap_event user now) db2)
      | err cause ↦ (false, db)
    ]
    else (false, db1)

-- `bootstrap_first_admin`; `others` is what commits between its two transactions.
unfoldable pub bootstrap_first_admin :
    Crypto
    → Draws
    → (AuthTables → AuthTables)
    → String
    → String
    → ℕ
    → AuthTables
    → Result (Bool × AuthTables)
bootstrap_first_admin c x others username password now db =
    if not (eqb (count_users db) 0) then ok (false, db) else (do
      (display, normalized) ← normalize_username c username
      hash ← hash_password c x.salt password
      ok (
          bootstrap_locked (new_user x display normalized hash none none "admin" now) now
            (others db)))
