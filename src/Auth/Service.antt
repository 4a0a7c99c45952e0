-- ===== src/Auth/Service.antt =====
-- AuthService (domainsmanager_application/services.py): what its calls share. Fresh identifiers and
-- secrets are arguments, as are the readings of the clock.
pub mod Rotation
pub mod Entry
pub mod Changes
use domains_manager.Base.{
  ℕ, ◌+◌, ◌/◌, String, Bool, ◌&&◌, Option, none, some, [], ltb, str_eq, if◌then◌else◌, is_none,
  or_else,
}
use domains_manager.Base.Result.{Result, ok, account_banned, guard, ◌>>=◌}
use domains_manager.Models.{prefix}
use domains_manager.Auth.{User, Session, RefreshToken, AuditEvent, AuthTables}
use domains_manager.Auth.Sessions.{add_session, add_token}
use domains_manager.Auth.Security.{Crypto, AccessTokens, issue_access, issue_refresh}

pub record AuthContext : Type 0 where
  pub request_id : Option String
  pub ip_hash : Option String
  pub user_agent : Option String

pub record TokenPair : Type 0 where
  pub access_token : String
  pub refresh_token : String
  pub expires_in : ℕ

pub record AuthenticationResult : Type 0 where
  pub user : User
  pub tokens : TokenPair

pub record AuthenticatedUser : Type 0 where
  pub user : User
  pub session : Session

pub record AuthService : Type 0 where
  pub crypto : Crypto
  pub access_tokens : AccessTokens
  pub registration_enabled : Bool
  pub access_ttl : ℕ
  pub refresh_ttl : ℕ

-- What `uuid4` and `token_urlsafe` return to one call.
pub record Draws : Type 0 where
  pub user_id : ℕ
  pub session_id : ℕ
  pub token_id : ℕ
  pub secret : String
  pub access_id : ℕ
  pub salt : ℕ

-- (context.user_agent or "")[:512] or None
abbrev pub user_agent_of : AuthContext → Option String
user_agent_of context =
    let kept = prefix 512 (or_else context.user_agent "") in
    if str_eq kept "" then none else some kept

-- `_token_pair`
abbrev pub token_pair : AuthService → Draws → User → ℕ → String → ℕ → TokenPair
token_pair s x user session refresh_value now = record {
  access_token =
      issue_access s.crypto s.access_tokens x.access_id user.id session user.password_changed_at
        now;
  refresh_token = refresh_value;
  expires_in = s.access_ttl / 1000000;
}

abbrev pub first_session : AuthService → Draws → User → AuthContext → ℕ → Session
first_session s x user context now = record {
  id = x.session_id;
  user_id = user.id;
  created_at = now;
  last_seen_at = now;
  absolute_expires_at = now + s.refresh_ttl;
  revoked_at = none;
  revoke_reason = none;
  ip_hash = context.ip_hash;
  user_agent = user_agent_of context;
}

abbrev pub first_token : AuthService → Draws → ℕ → RefreshToken
first_token s x now = record {
  id = x.token_id;
  session_id = x.session_id;
  parent_token_id = none;
  replaced_by_token_id = none;
  token_hash = (issue_refresh s.crypto x.token_id x.secret).digest;
  issued_at = now;
  expires_at = now + s.refresh_ttl;
  consumed_at = none;
  revoked_at = none;
}

-- `_create_session`
unfoldable pub create_session :
    AuthService
    → Draws
    → User
    → AuthContext
    → ℕ
    → AuthTables
    → Result (AuthenticationResult × AuthTables)
create_session s x user context now db = do
  db1 ← add_session (first_session s x user context now) db
  db2 ← add_token (first_token s x now) db1
  ok (
    record {
      user = user;
      tokens =
          token_pair s x user x.session_id (issue_refresh s.crypto x.token_id x.secret).value now;
    },
    db2,
  )

-- `_token_is_active`
abbrev pub token_is_active : RefreshToken → Session → ℕ → Bool
token_is_active token session now =
    is_none token.revoked_at
    && ltb now token.expires_at
    && is_none session.revoked_at
    && ltb now session.absolute_expires_at

-- `_ensure_user_active`
abbrev pub ensure_user_active : User → Result (Unit {0})
ensure_user_active user = guard (user.is_active && is_none user.banned_at) account_banned

-- `_audit`
abbrev pub audit : String → ℕ → AuthContext → ℕ → ℕ → String → AuditEvent
audit event at context actor target target_type = record {
  event_type = event;
  occurred_at = at;
  actor_user_id = some actor;
  target_type = some target_type;
  target_id = some target;
  request_id = context.request_id;
  ip_hash = context.ip_hash;
  metadata = [];
}

-- A transaction that raises is rolled back; what others committed before it stays.
abbrev pub commit : {T : Type 0} → AuthTables → Result (T × AuthTables) → Result T × AuthTables
commit db (Result.ok (t, db')) = (ok t, db')
commit db (Result.err cause) = (Result.err cause, db)
