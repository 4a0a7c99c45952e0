-- ===== src/Auth/Service/Changes.antt =====
-- `change_password`, `update_profile` and `update_settings` of AuthService, and `set_ban_state` of
-- domainsmanager_api/api/admin.py.
use domains_manager.Base.{
  ℕ, ◌+◌, String, Bool, true, ◌&&◌, ◌||◌, not, Option, none, some, [], ◌∷◌, eqb, max, str_eq,
  if◌then◌else◌, is_none, is_some,
}
use domains_manager.Base.Dict.{Dict}
use domains_manager.Base.Table.{find, update, count, map_opt}
use domains_manager.Base.Result.{
  Result, ok, invalid_token, password_mismatch, password_reused, record_not_found,
  cannot_revoke_current_session, or_raise, guard, ◌>>=◌, ◌>>◌,
}
use domains_manager.Models.{Json}
use domains_manager.Auth.{User, Session, RefreshToken, AuthTables, AuditEvent}
use domains_manager.Auth.Users.{
  get_by_id, update_profile as write_profile, update_preferences, update_password, add_audit,
}
use domains_manager.Auth.Sessions.{
  revoke_other_sessions, closed, withdrawn, get_session, revoke_session,
}
use domains_manager.Auth.Security.{validate_password, hash_password}
use domains_manager.Auth.Service.{
  AuthService, AuthContext, Draws, AuthenticatedUser, ensure_user_active, audit,
}

-- The transaction of `change_password`, with the hash of the new password.
unfoldable pub change_password_locked :
    AuthenticatedUser → String → AuthContext → ℕ → AuthTables → Result AuthTables
change_password_locked current new_hash context clock db = do
  user ← or_raise (get_by_id current.user.id db) invalid_token
  guard (str_eq user.password_hash current.user.password_hash) invalid_token
  ensure_user_active user
  let now = max clock (user.password_changed_at + 1) in
      (do
        db1 ← update_password user.id new_hash now db
        ok (
            add_audit (audit "user.password_changed" now context user.id user.id "user")
              (revoke_other_sessions user.id current.session.id now "password_changed" db1)))

-- `change_password`
unfoldable pub change_password :
    AuthService
    → Draws
    → AuthenticatedUser
    → String
    → String
    → AuthContext
    → ℕ
    → AuthTables
    → Result AuthTables
change_password s x current old new context clock db = do
  validate_password new
  guard (s.crypto.verify old current.user.password_hash) password_mismatch
  guard (not (s.crypto.verify new current.user.password_hash)) password_reused
  hash ← hash_password s.crypto x.salt new
  change_password_locked current hash context clock db

-- The transaction of `update_profile`.
unfoldable pub update_profile : ℕ → Option String → AuthContext → ℕ → AuthTables → Result AuthTables
update_profile id email context now db = do
  user ← or_raise (get_by_id id db) invalid_token
  ensure_user_active user
  db1 ← write_profile user.id email (map_opt (λ e. now) email) now db
  ok (add_audit (audit "user.profile_updated" now context user.id user.id "user") db1)

-- The transaction of `update_settings`.
unfoldable pub update_settings :
    ℕ → Dict String Json → AuthContext → ℕ → AuthTables → Result AuthTables
update_settings id preferences context now db = do
  user ← or_raise (get_by_id id db) invalid_token
  ensure_user_active user
  db1 ← update_preferences user.id preferences now db
  ok (add_audit (audit "user.settings_updated" now context user.id user.id "user") db1)

abbrev pub is_bannable : ℕ → User → Bool
is_bannable id u = eqb u.id id && is_none u.banned_at && u.is_active

abbrev pub banned : ℕ → ℕ → String → User → User
banned admin at reason u = record u {
  banned_at = some at;
  ban_reason = some reason;
  banned_by_user_id = some admin;
  updated_at = at;
}

abbrev pub is_pardonable : ℕ → User → Bool
is_pardonable id u = eqb u.id id && (is_some u.banned_at || not u.is_active)

abbrev pub pardoned : ℕ → User → User
pardoned at u = record u {
  is_active = true;
  banned_at = none;
  ban_reason = none;
  banned_by_user_id = none;
  updated_at = at;
}

abbrev pub admin_event :
    String → ℕ → ℕ → String → ℕ → Option String → Dict String String → AuditEvent
admin_event event at admin target_type target request metadata = record {
  event_type = event;
  occurred_at = at;
  actor_user_id = some admin;
  target_type = some target_type;
  target_id = some target;
  request_id = request;
  ip_hash = none;
  metadata = metadata;
}

abbrev pub is_unrevoked_by : ℕ → Session → Bool
is_unrevoked_by user s = eqb s.user_id user && is_none s.revoked_at

-- The tokens of every session of the user, revoked or not.
abbrev pub is_unrevoked_for : ℕ → AuthTables → RefreshToken → Bool
is_unrevoked_for user db t =
    is_some (find (λ (s : Session). eqb s.id t.session_id && eqb s.user_id user) db.sessions)
    && is_none t.revoked_at

-- The two updates that follow a ban: the sessions of the user, then their tokens.
unfoldable pub close_sessions : ℕ → ℕ → AuthTables → AuthTables
close_sessions user at db = record db {
  sessions = update (is_unrevoked_by user) (closed at "admin_banned") db.sessions;
  tokens = update (is_unrevoked_for user db) (withdrawn at) db.tokens;
}

-- `set_ban_state` with a reason.
unfoldable pub ban_user : ℕ → ℕ → Option String → String → ℕ → AuthTables → Result AuthTables
ban_user id admin request reason now db = do
  user ← or_raise (get_by_id id db) record_not_found
  ok (
      if eqb (count (is_bannable id) db.users) 1
      then add_audit
          (admin_event "admin.user_banned" now admin "user" id request (("reason", reason) ∷ []))
          (close_sessions id now
            (record db { users = update (is_bannable id) (banned admin now reason) db.users }))
      else db)

-- `set_ban_state` without a reason.
unfoldable pub unban_user : ℕ → ℕ → Option String → ℕ → AuthTables → Result AuthTables
unban_user id admin request now db = do
  user ← or_raise (get_by_id id db) record_not_found
  ok (
      if eqb (count (is_pardonable id) db.users) 1
      then add_audit (admin_event "admin.user_unbanned" now admin "user" id request [])
          (record db { users = update (is_pardonable id) (pardoned now) db.users })
      else db)

-- `set_ban_state`: an empty reason is none.
unfoldable pub set_ban_state :
    ℕ → ℕ → Option String → Option String → ℕ → AuthTables → Result AuthTables
set_ban_state id admin request none now db = unban_user id admin request now db
set_ban_state id admin request (some reason) now db =
    if str_eq reason ""
    then unban_user id admin request now db
    else ban_user id admin request reason now db

-- `revoke_user_session` of the administration; `user_text` is the text of the user's identifier. The
-- row that the session was read from is the one that is written.
unfoldable pub revoke_user_session :
    (user id current admin : ℕ) → Option String → String → ℕ → AuthTables → Result AuthTables
revoke_user_session user id current admin request user_text now db = do
  session ← or_raise (get_session id db) record_not_found
  guard (eqb session.user_id user) record_not_found
  guard (not (eqb id current)) cannot_revoke_current_session
  ok (
      if is_none session.revoked_at
      then add_audit
          (admin_event "admin.session_revoked" now admin "session" id request
            (("user_id", user_text) ∷ []))
          (revoke_session id now "admin_revoked" db)
      else db)
