-- ===== src/Auth/Writes.antt =====
-- What the transactions on accounts are made of: one kind of write for each method of the
-- repositories, with a new session and its first token, and the exchange of a token, as one each.
use domains_manager.Base.{ℕ, String, Bool, Option, some, true, ◌≡◌}
use domains_manager.Base.Table.{update}
use domains_manager.Base.Result.{ok}
use domains_manager.Auth.{User, Session, RefreshToken, AuditEvent, AuthTables}
use domains_manager.Auth.Users.{add_user, add_audit, try_claim}
use domains_manager.Auth.Sessions.{
  is_consumable, get_session, get_token, revoke_session, revoke_user_sessions,
}
use domains_manager.Auth.Service.{
  AuthService, AuthContext, Draws, AuthenticationResult, TokenPair, create_session,
}
use domains_manager.Auth.Service.Rotation.{exchange}
use domains_manager.Auth.Service.Changes.{close_sessions}

pub data Write (db db' : AuthTables) : Type 0 where
  adds : (user : User) → add_user user db ≡ ok db' → Write db db'
  -- None of these transactions changes the identifier of a user.
  sets :
      (which : User → Bool) (values : User → User)
      → ((u : User) → (values u).id ≡ u.id)
      → db' ≡ record db { users = update which values db.users }
      → Write db db'
  opens :
      (s : AuthService) (x : Draws) (user : User) (context : AuthContext) (now : ℕ)
      (result : AuthenticationResult)
      → create_session s x user context now db ≡ ok (result, db')
      → Write db db'
  exchanges :
      (s : AuthService) (x : Draws) (token : RefreshToken) (session : Session) (user : User)
      (context : AuthContext) (now : ℕ) (pair : TokenPair)
      → get_token token.id db ≡ some token
      → get_session token.session_id db ≡ some session
      → is_consumable token.id token ≡ true
      → exchange s x token session user context now db ≡ ok (pair, db')
      → Write db db'
  revokes : (id at : ℕ) (reason : String) → db' ≡ revoke_session id at reason db → Write db db'
  revokes_all :
      (user at : ℕ) (reason : String) (except : Option ℕ)
      → db' ≡ revoke_user_sessions user at reason except db
      → Write db db'
  closes : (user at : ℕ) → db' ≡ close_sessions user at db → Write db db'
  notes : (event : AuditEvent) → db' ≡ add_audit event db → Write db db'
  claims : (key : String) (at : ℕ) → db' ≡ (try_claim key at db).1 → Write db db'

infixl 5 ◌▹◌
pub data Writes (db : AuthTables) : AuthTables → Type 0 where
  still : Writes db db
  ◌▹◌ : {db' db'' : AuthTables} → Writes db db' → Write db' db'' → Writes db db''

pub append-Writes : {db db' db'' : AuthTables} → Writes db db' → Writes db' db'' → Writes db db''
append-Writes first still = first
append-Writes first (rest ▹ w) = append-Writes first rest ▹ w
