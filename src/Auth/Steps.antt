-- ===== src/Auth/Steps.antt =====
-- The transactions that AuthService, OAuthService and the administration (bans and the revocation of
-- a session) commit on accounts, in any order.
use domains_manager.Base.{ℕ, String, Option, List, ◌≡◌}
use domains_manager.Base.Dict.{Dict}
use domains_manager.Base.Result.{ok}
use domains_manager.Models.{Json}
use domains_manager.Auth.{User, Session, AuthTables}
use domains_manager.Auth.Service.{
  AuthService, AuthContext, Draws, AuthenticationResult, AuthenticatedUser, TokenPair,
}
use domains_manager.Auth.Service.Rotation.{rotate_locked, revoke_replayed_locked, logout_locked}
use domains_manager.Auth.Service.Entry.{register_locked, login_named, bootstrap_locked}
use domains_manager.Auth.Service.Changes.{
  change_password_locked, update_profile, update_settings, set_ban_state, revoke_user_session,
}
use domains_manager.OAuth.{IdentityRecord, Intent, OAuthTables}
use domains_manager.OAuth.Service.{set_username_locked, set_password, unlink}
use domains_manager.OAuth.Callback.{ExternalIdentity, finish}

pub data Step (db db' : AuthTables) : Type 0 where
  registers :
      (s : AuthService) (x : Draws) (user : User) (context : AuthContext) (now : ℕ)
      (result : AuthenticationResult)
      → register_locked s x user context now db ≡ ok (result, db')
      → Step db db'
  logs_in :
      (s : AuthService) (x : Draws) (name password : String) (context : AuthContext) (now : ℕ)
      (result : AuthenticationResult)
      → login_named s x name password context now db ≡ ok (result, db')
      → Step db db'
  rotates :
      (s : AuthService) (x : Draws) (id : ℕ) (digest : String) (resolved : Session)
      (context : AuthContext) (now : ℕ) (pair : TokenPair)
      → rotate_locked s x id digest resolved context now db ≡ ok (pair, db')
      → Step db db'
  detects_replay :
      (id : ℕ) (resolved : Session) (context : AuthContext) (now : ℕ)
      → db' ≡ revoke_replayed_locked id resolved context now db
      → Step db db'
  logs_out :
      (id : ℕ) (digest : String) (resolved : Session) (context : AuthContext) (now : ℕ)
      → db' ≡ logout_locked id digest resolved context now db
      → Step db db'
  changes_password :
      (current : AuthenticatedUser) (hash : String) (context : AuthContext) (clock : ℕ)
      → change_password_locked current hash context clock db ≡ ok db'
      → Step db db'
  changes_profile :
      (id : ℕ) (email : Option String) (context : AuthContext) (now : ℕ)
      → update_profile id email context now db ≡ ok db'
      → Step db db'
  changes_settings :
      (id : ℕ) (preferences : Dict String Json) (context : AuthContext) (now : ℕ)
      → update_settings id preferences context now db ≡ ok db'
      → Step db db'
  bootstraps : (user : User) (now : ℕ) → db' ≡ (bootstrap_locked user now db).1 → Step db db'
  sets_ban :
      (id admin : ℕ) (request reason : Option String) (now : ℕ)
      → set_ban_state id admin request reason now db ≡ ok db'
      → Step db db'
  revokes_session :
      (user id current admin : ℕ) (request : Option String) (user_text : String) (now : ℕ)
      → revoke_user_session user id current admin request user_text now db ≡ ok db'
      → Step db db'
  -- The transactions of OAuthService also change the tables of identities.
  finishes :
      (s : AuthService) (x : Draws) (fresh : ℕ) (fallback secret : String)
      (read : Option IdentityRecord) (intent : Intent) (e : ExternalIdentity)
      (context : AuthContext) (now : ℕ) (result : Option AuthenticationResult) (o o' : OAuthTables)
      → finish s x fresh fallback secret read intent e context now o ≡ ok (result, o')
      → o.accounts ≡ db
      → o'.accounts ≡ db'
      → Step db db'
  sets_username :
      (current : AuthenticatedUser) (display normalized : String) (context : AuthContext) (now : ℕ)
      (user : User) (o o' : OAuthTables)
      → set_username_locked current display normalized context now o ≡ ok (user, o')
      → o.accounts ≡ db
      → o'.accounts ≡ db'
      → Step db db'
  sets_password :
      (current : AuthenticatedUser) (hash : String) (context : AuthContext) (clock : ℕ)
      (o o' : OAuthTables)
      → set_password current hash context clock o ≡ ok o'
      → o.accounts ≡ db
      → o'.accounts ≡ db'
      → Step db db'
  unlinks :
      (providers : List String) (key : String) (current : AuthenticatedUser) (context : AuthContext)
      (now : ℕ) (o o' : OAuthTables)
      → unlink providers key current context now o ≡ ok o'
      → o.accounts ≡ db
      → o'.accounts ≡ db'
      → Step db db'

pub data Reach (db : AuthTables) : AuthTables → Type 0 where
  here : Reach db db
  next : {db' db'' : AuthTables} → Reach db db' → Step db' db'' → Reach db db''
