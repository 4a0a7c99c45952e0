-- ===== src/OAuth/Callback.antt =====
-- `_finish` of OAuthService: what a callback writes for an external identity.
use Prim.Native.String.{◌++◌ as str_append, count as text_length}
use domains_manager.Base.{
  ℕ, String, Bool, true, false, ◌&&◌, not, Option, none, some, [], ◌∷◌, eqb, leb, ltb, str_eq, any,
  if◌then◌else◌, is_none, is_some,
}
use domains_manager.Base.Result.{
  Result, ok, registration_disabled, oauth_session_changed, oauth_identity_in_use,
  oauth_provider_already_linked, oauth_identity_changed, or_raise, guard, ◌>>=◌, ◌>>◌,
}
use domains_manager.Auth.{User, AuthTables}
use domains_manager.Auth.Users.{
  get_by_id, get_by_username, add_user, logged_in, set_last_login, add_audit,
}
use domains_manager.Auth.Sessions.{get_session}
use domains_manager.Auth.Security.{all_name_chars, hash_password}
use domains_manager.Auth.Service.{
  AuthService, AuthContext, AuthenticationResult, Draws, create_session, ensure_user_active,
}
use domains_manager.Auth.Service.Entry.{new_user}
use domains_manager.OAuth.{
  IdentityRecord, Intent, login, link, OAuthTables, get_identity, list_identities, add_identity,
  update_identity,
}
use domains_manager.OAuth.Service.{with_accounts, oauth_event}

pub record ExternalIdentity : Type 0 where
  pub provider_key : String
  pub subject : String
  pub username : Option String
  pub display_name : Option String
  pub avatar_url : Option String
  pub active : Bool
  pub profile : String

-- The identity that `_finish` writes.
abbrev pub identity_of :
    ℕ → Option IdentityRecord → User → Intent → ExternalIdentity → ℕ → IdentityRecord
identity_of fresh stored user intent e now = record {
  id = elim stored [ none ↦ fresh | some i ↦ i.id ];
  user_id = user.id;
  provider_key = e.provider_key;
  provider_subject = e.subject;
  provider_username = e.username;
  display_name = e.display_name;
  avatar_url = e.avatar_url;
  profile = e.profile;
  created_at = elim stored [ none ↦ now | some i ↦ i.created_at ];
  updated_at = now;
  last_login_at = elim intent [
    | login ↦ some now
    | link u s ↦ elim stored [ none ↦ none | some i ↦ i.last_login_at ]
  ];
}

-- The user of a link, and the identity as it is stored.
unfoldable pub linked_user :
    ℕ → ℕ → ExternalIdentity → ℕ → OAuthTables → Result (User × Option IdentityRecord)
linked_user user_id session_id e now db = do
  user ← or_raise (get_by_id user_id db.accounts) oauth_session_changed
  session ← or_raise (get_session session_id db.accounts) oauth_session_changed
  guard (eqb session.user_id user.id) oauth_session_changed
  guard (is_none session.revoked_at) oauth_session_changed
  guard (ltb now session.absolute_expires_at) oauth_session_changed
  ensure_user_active user
  guard
      (elim (get_identity e.provider_key e.subject db) [
        | none ↦ true
        | some i ↦ eqb i.user_id user.id
      ])
      oauth_identity_in_use
  guard
      (not (
        any (λ i. str_eq i.provider_key e.provider_key && not (str_eq i.provider_subject e.subject))
          (list_identities user.id db)))
      oauth_provider_already_linked
  ok (user, get_identity e.provider_key e.subject db)

-- The user of a login with an identity that was linked when it was first read.
unfoldable pub known_user :
    IdentityRecord → ExternalIdentity → OAuthTables → Result (User × Option IdentityRecord)
known_user read e db = do
  user ← or_raise (get_by_id read.user_id db.accounts) oauth_identity_changed
  stored ← or_raise (get_identity e.provider_key e.subject db) oauth_identity_changed
  guard (eqb stored.user_id user.id) oauth_identity_changed
  ensure_user_active user
  ok (user, some stored)

-- The name of a new user: that of the provider and the subject where it is well formed and free.
abbrev pub provider_name : ExternalIdentity → String → String
provider_name e fallback =
    let base = str_append e.provider_key (str_append "-" e.subject) in
    if leb (text_length base) 128 && all_name_chars base then base else fallback

abbrev pub free_name : AuthService → ExternalIdentity → String → AuthTables → String
free_name s e fallback db =
    let name = provider_name e fallback in
    if is_some (get_by_username (s.crypto.casefold name) db) then fallback else name

-- The user of a login with a new identity; `fallback` is "oauth-" with the identifier in
-- hexadecimal, and `secret` a random password that nobody knows.
unfoldable pub created_user :
    AuthService
    → Draws
    → String
    → String
    → ExternalIdentity
    → ℕ
    → OAuthTables
    → Result (User × OAuthTables)
created_user s x fallback secret e now db = do
  guard s.registration_enabled registration_disabled
  hash ← hash_password s.crypto x.salt secret
  let name = free_name s e fallback db.accounts in
      let user = record (new_user x name (s.crypto.casefold name) hash none none "user" now) {
        password_auth_enabled = false;
        username_setup_required = true;
      } in
      (do db1 ← add_user user db.accounts; ok (user, with_accounts db db1))

-- Which user the transaction of `_finish` is for.
unfoldable pub finish_user :
    AuthService
    → Draws
    → String
    → String
    → Option IdentityRecord
    → Intent
    → ExternalIdentity
    → ℕ
    → OAuthTables
    → Result ((User × Option IdentityRecord) × OAuthTables)
finish_user s x fallback secret read (link user session) e now db = do
  found ← linked_user user session e now db
  ok (found, db)
finish_user s x fallback secret (some i) login e now db = do
  found ← known_user i e db
  ok (found, db)
finish_user s x fallback secret none login e now db = do
  (user, db1) ← created_user s x fallback secret e now db
  ok ((user, none), db1)

-- The identity is inserted, or written over the stored one.
abbrev pub save_identity : Option IdentityRecord → IdentityRecord → OAuthTables → Result OAuthTables
save_identity none identity db = add_identity identity db
save_identity (some i) identity db = ok (update_identity identity db)

-- A login sets the time and opens a session.
unfoldable pub open_session :
    AuthService
    → Draws
    → User
    → Intent
    → AuthContext
    → ℕ
    → AuthTables
    → Result (Option AuthenticationResult × AuthTables)
open_session s x user (link u i) context now db = ok (none, db)
open_session s x user login context now db = do
  db1 ← set_last_login user.id now db
  (result, db2) ← create_session s x (logged_in now user) context now db1
  ok (some result, db2)

abbrev pub event_of : Intent → String
event_of login = "oauth.login"
event_of (link user session) = "oauth.linked"

-- `_finish`: `read` is the identity as the transaction read it before it locked the user.
unfoldable pub finish :
    AuthService
    → Draws
    → ℕ
    → String
    → String
    → Option IdentityRecord
    → Intent
    → ExternalIdentity
    → AuthContext
    → ℕ
    → OAuthTables
    → Result (Option AuthenticationResult × OAuthTables)
finish s x fresh fallback secret read intent e context now db = do
  ((user, stored), db1) ← finish_user s x fallback secret read intent e now db
  db2 ← save_identity stored (identity_of fresh stored user intent e now) db1
  (result, accounts) ← open_session s x user intent context now db2.accounts
  ok (
    result,
    with_accounts db2 (
        add_audit
          (oauth_event (event_of intent) now user.id context.request_id context.ip_hash
            (("provider", e.provider_key) ∷ []))
          accounts),
  )
