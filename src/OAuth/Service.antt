-- ===== src/OAuth/Service.antt =====
-- OAuthService (domainsmanager_application/oauth.py): signing in with, linking and unlinking
-- external identities. An OAuthError is named by its code. What a provider returns is an argument.
use domains_manager.Base.{
  ℕ, ◌+◌, ◌*◌, String, Bool, ◌||◌, ◌&&◌, not, Option, none, some, List, [], ◌∷◌, eqb, leb, ltb,
  str_eq, max, any, none_or, is_none,
}
use domains_manager.Base.Table.{find}
use domains_manager.Base.Result.{
  Result, ok, err, username_taken, oauth_reauthentication_required, oauth_session_changed,
  username_already_set, oauth_identity_not_found, oauth_last_login_method,
  oauth_password_already_set, or_raise, guard, ◌>>=◌, ◌>>◌,
}
use domains_manager.Auth.{User, AuthTables, AuditEvent}
use domains_manager.Auth.Users.{
  get_by_id, get_by_username, update_password, add_audit, complete_username_setup, with_names,
}
use domains_manager.Auth.Sessions.{get_session, revoke_other_sessions}
use domains_manager.Auth.Security.{normalize_username}
use domains_manager.Auth.Service.{AuthService, AuthContext, AuthenticatedUser, ensure_user_active}
use domains_manager.Auth.Service.Entry.{taken_if_duplicate}
use domains_manager.OAuth.{
  IdentityRecord, AuthorizationAttempt, OAuthTables, list_identities, delete_identity,
  enable_password, cleanup_attempts, add_attempt,
}

abbrev pub minutes : ℕ → ℕ
minutes n = n * 60000000

-- `require_recent`
abbrev pub require_recent : AuthenticatedUser → ℕ → Result (Unit {0})
require_recent current now =
    guard (leb now (current.session.created_at + minutes 10)) oauth_reauthentication_required

-- A change to the accounts in a transaction over all tables.
abbrev pub with_accounts : OAuthTables → AuthTables → OAuthTables
with_accounts db accounts = record db { accounts = accounts }

abbrev pub oauth_event :
    String → ℕ → ℕ → Option String → Option String → List (String × String) → AuditEvent
oauth_event event now user request ip metadata = record {
  event_type = event;
  occurred_at = now;
  actor_user_id = some user;
  target_type = some "user";
  target_id = some user;
  request_id = request;
  ip_hash = ip;
  metadata = metadata;
}

-- The transaction of `begin`.
unfoldable pub begin_attempt : AuthorizationAttempt → ℕ → OAuthTables → Result OAuthTables
begin_attempt attempt now db = add_attempt attempt (cleanup_attempts now db)

-- `_validate_mutation`
unfoldable pub validate_mutation : AuthenticatedUser → ℕ → AuthTables → Result User
validate_mutation current now db = do
  user ← or_raise (get_by_id current.user.id db) oauth_session_changed
  session ← or_raise (get_session current.session.id db) oauth_session_changed
  guard (eqb session.user_id current.user.id) oauth_session_changed
  guard (is_none session.revoked_at) oauth_session_changed
  guard (ltb now session.absolute_expires_at) oauth_session_changed
  guard (eqb user.password_changed_at current.user.password_changed_at) oauth_session_changed
  ensure_user_active user
  ok user

-- The transaction of `set_username`, with the names as they are shown and compared.
unfoldable pub set_username_locked :
    AuthenticatedUser
    → String
    → String
    → AuthContext
    → ℕ
    → OAuthTables
    → Result (User × OAuthTables)
set_username_locked current display normalized context now db = do
  user ← validate_mutation current now db.accounts
  guard user.username_setup_required username_already_set
  guard (none_or (get_by_username normalized db.accounts) (λ u. eqb u.id user.id)) username_taken
  db1 ← complete_username_setup user.id display normalized now db.accounts
  ok (
    with_names display normalized now user,
    with_accounts db
        (add_audit (oauth_event "user.username_set" now user.id context.request_id none []) db1),
  )

-- `set_username`
unfoldable pub set_username :
    AuthService
    → AuthenticatedUser
    → String
    → AuthContext
    → ℕ
    → OAuthTables
    → Result (User × OAuthTables)
set_username s current username context now db = do
  (display, normalized) ← normalize_username s.crypto username
  elim (set_username_locked current display normalized context now db) [
    | ok done ↦ ok done
    | err cause ↦ err (taken_if_duplicate cause)
  ]

-- any(item.provider_key != key and item.provider_key in self.providers for item in identities)
abbrev pub is_other_way : List String → String → IdentityRecord → Bool
is_other_way providers key i =
    not (str_eq i.provider_key key) && any (str_eq i.provider_key) providers

-- `unlink`, with the providers that are configured.
unfoldable pub unlink :
    List String → String → AuthenticatedUser → AuthContext → ℕ → OAuthTables → Result OAuthTables
unlink providers key current context now db = do
  require_recent current now
  user ← validate_mutation current now db.accounts
  target ←
      or_raise (find (λ i. str_eq i.provider_key key) (list_identities user.id db))
        oauth_identity_not_found
  guard
      (user.password_auth_enabled || any (is_other_way providers key) (list_identities user.id db))
      oauth_last_login_method
  ok (
      with_accounts (delete_identity target.id db) (
        add_audit
          (oauth_event "oauth.unlinked" now user.id context.request_id context.ip_hash
            (("provider", key) ∷ []))
          (revoke_other_sessions user.id current.session.id now "oauth_unlinked" db.accounts)))

-- `set_password`, with the hash of the password.
unfoldable pub set_password :
    AuthenticatedUser → String → AuthContext → ℕ → OAuthTables → Result OAuthTables
set_password current hash context clock db = do
  require_recent current clock
  user ← validate_mutation current clock db.accounts
  guard (not user.password_auth_enabled) oauth_password_already_set
  let now = max clock (user.password_changed_at + 1) in
      (do
        db1 ← update_password user.id hash now db.accounts
        ok (
            with_accounts db (
              add_audit (oauth_event "user.password_set" now user.id context.request_id none []) (
                revoke_other_sessions user.id current.session.id now "password_set"
                  (enable_password user.id db1)))))
