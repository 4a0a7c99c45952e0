-- ===== src/Auth/Forever.antt =====
-- What no write on accounts undoes.
use domains_manager.Base.{
  ℕ, String, Bool, true, none, [], ◌∷◌, ◌++◌, List, ◌≡◌, refl, subst, sym, arith, is_some,
}
use domains_manager.Base.Kept.{IsKept, IsKept-append, IsKept-update}
use domains_manager.Base.Table.{update}
use domains_manager.Base.Result.{ok, bind_ok}
use domains_manager.Auth.{Session, RefreshToken, User, AuthTables}
use domains_manager.Auth.Users.{add_user, try_claim}
use domains_manager.Auth.Sessions.{
  is_session, is_token, add_session, add_token, consume_token, touch_session, revoke_session,
  revoke_user_sessions, is_consumable, consumed, withdrawn, closed, is_open, is_unrevoked_of,
  is_unrevoked_in, is_open_of,
}
use domains_manager.Auth.Service.{
  AuthService, AuthContext, Draws, create_session, first_session, first_token, AuthenticationResult,
  TokenPair,
}
use domains_manager.Auth.Service.Rotation.{exchange, replacement}
use domains_manager.Auth.Service.Changes.{close_sessions, is_unrevoked_for, is_unrevoked_by}
use domains_manager.Auth.Steps.{Reach}
use domains_manager.Auth.Sequences.{reach-Good}
use domains_manager.Auth.Writes.{
  Write, adds, sets, opens, exchanges, revokes, revokes_all, closes, notes, claims,
}

-- What a new session adds.
pub create_session_adds :
    (s : AuthService) (x : Draws) (user : User) (context : AuthContext) (now : ℕ)
    (db db' : AuthTables) (r : AuthenticationResult)
    → create_session s x user context now db ≡ ok (r, db')
    → (db'.sessions ≡ db.sessions ++ (first_session s x user context now ∷ []))
      × (db'.tokens ≡ db.tokens ++ (first_token s x now ∷ []))
      × (db'.users ≡ db.users)
      × (db'.states ≡ db.states)
unfolding create_session add_session add_token
create_session_adds s x user context now db db' r h =
    let (db1, e1, k1) = bind_ok (add_session (first_session s x user context now) db) _ h in
    let (db2, e2, k2) = bind_ok (add_token (first_token s x now) db1) _ k1 in
    (ground arith, ground arith, ground arith, ground arith)

-- What an exchange writes.
pub exchange_writes :
    (s : AuthService) (x : Draws) (token : RefreshToken) (session : Session) (user : User)
    (context : AuthContext) (now : ℕ) (db db' : AuthTables) (r : TokenPair)
    → exchange s x token session user context now db ≡ ok (r, db')
    → (db'.sessions
        ≡ update (is_open session.id) (λ s. record s { last_seen_at = now }) db.sessions)
      × (db'.tokens
          ≡ update
              (is_consumable token.id)
              (consumed x.token_id now)
              (db.tokens ++ (replacement s x token session now ∷ [])))
      × (db'.users ≡ db.users)
      × (db'.states ≡ db.states)
unfolding exchange add_token consume_token touch_session
exchange_writes s x token session user context now db db' r h =
    let (db1, e1, k1) = bind_ok (add_token (replacement s x token session now) db) _ h in
    let (db2, e2, k2) = bind_ok (consume_token token.id x.token_id now db1) _ k1 in
    let (db3, e3, k3) = bind_ok (touch_session session.id now db2) _ k2 in
    (ground arith, ground arith, ground arith, ground arith)

module _ (id : ℕ) (P : RefreshToken → Type 0)
    (consumes : (r at : ℕ) (t : RefreshToken) → t.consumed_at ≡ none → P t → P (consumed r at t))
    (withdraws : (at : ℕ) (t : RefreshToken) → t.revoked_at ≡ none → P t → P (withdrawn at t)) where
  withdraw-IsKept :
      (q : RefreshToken → Bool) (at : ℕ) (ts : List RefreshToken)
      → ((t : RefreshToken) → q t ≡ true → t.revoked_at ≡ none)
      → IsKept (is_token id) P ts
      → IsKept (is_token id) P (update q (withdrawn at) ts)
  withdraw-IsKept q at ts null h =
      IsKept-update (is_token id) P q (withdrawn at) ts (λ t e. refl)
        (λ t e. withdraws at t (null t e)) h

  pub write-token :
      (db db' : AuthTables)
      → Write db db'
      → IsKept (is_token id) P db.tokens
      → IsKept (is_token id) P db'.tokens
  unfolding add_user revoke_session revoke_user_sessions close_sessions try_claim
  write-token db db' (adds user e) h = subst (IsKept (is_token id) P) (ground arith) h
  write-token db db' (sets q f a e) h = subst (IsKept (is_token id) P) (ground arith) h
  write-token db db' (opens s x user context now r e) h =
      subst (IsKept (is_token id) P) (sym (create_session_adds s x user context now db db' r e).1)
        (IsKept-append (is_token id) P db.tokens _ h)
  write-token db db' (exchanges s x token session user context now r a b c e) h =
      subst (IsKept (is_token id) P)
        (sym (exchange_writes s x token session user context now db db' r e).1)
        (IsKept-update (is_token id) P (is_consumable token.id) (consumed x.token_id now) _
          (λ t e. refl) (λ t e. consumes x.token_id now t (ground arith))
          (IsKept-append (is_token id) P db.tokens _ h))
  write-token db db' (revokes i at reason e) h =
      rw (e) (withdraw-IsKept (is_unrevoked_of i) at db.tokens (λ t q. ground arith) h)
  write-token db db' (revokes_all user at reason except e) h =
      rw (e) (withdraw-IsKept (is_unrevoked_in user except db) at db.tokens (λ t q. ground arith) h)
  write-token db db' (closes user at e) h =
      rw (e) (withdraw-IsKept (is_unrevoked_for user db) at db.tokens (λ t q. ground arith) h)
  write-token db db' (notes event e) h = subst (IsKept (is_token id) P) (ground arith) h
  write-token db db' (claims key at e) h = subst (IsKept (is_token id) P) (ground arith) h

module _ (id : ℕ) (P : Session → Type 0)
    (touches : (at : ℕ) (s : Session) → P s → P (record s { last_seen_at = at }))
    (closes_it : (at : ℕ) (reason : String) (s : Session)
      → s.revoked_at ≡ none
      → P s
      → P (closed at reason s)) where
  close-IsKept :
      (q : Session → Bool) (at : ℕ) (reason : String) (rs : List Session)
      → ((s : Session) → q s ≡ true → s.revoked_at ≡ none)
      → IsKept (is_session id) P rs
      → IsKept (is_session id) P (update q (closed at reason) rs)
  close-IsKept q at reason rs null h =
      IsKept-update (is_session id) P q (closed at reason) rs (λ s e. refl)
        (λ s e. closes_it at reason s (null s e)) h

  pub write-session :
      (db db' : AuthTables)
      → Write db db'
      → IsKept (is_session id) P db.sessions
      → IsKept (is_session id) P db'.sessions
  unfolding add_user revoke_session revoke_user_sessions close_sessions try_claim
  write-session db db' (adds user e) h = subst (IsKept (is_session id) P) (ground arith) h
  write-session db db' (sets q f a e) h = subst (IsKept (is_session id) P) (ground arith) h
  write-session db db' (opens s x user context now r e) h =
      subst (IsKept (is_session id) P) (sym (create_session_adds s x user context now db db' r e).0)
        (IsKept-append (is_session id) P db.sessions _ h)
  write-session db db' (exchanges s x token session user context now r a b c e) h =
      subst (IsKept (is_session id) P)
        (sym (exchange_writes s x token session user context now db db' r e).0)
        (IsKept-update (is_session id) P (is_open session.id) (λ s. record s { last_seen_at = now })
          db.sessions (λ t e. refl) (λ t e. touches now t) h)
  write-session db db' (revokes i at reason e) h =
      rw (e) (close-IsKept (is_open i) at reason db.sessions (λ t q. ground arith) h)
  write-session db db' (revokes_all user at reason except e) h =
      rw (e) (close-IsKept (is_open_of user except) at reason db.sessions (λ t q. ground arith) h)
  write-session db db' (closes user at e) h =
      rw (e)
        (close-IsKept (is_unrevoked_by user) at "admin_banned" db.sessions (λ t q. ground arith) h)
  write-session db db' (notes event e) h = subst (IsKept (is_session id) P) (ground arith) h
  write-session db db' (claims key at e) h = subst (IsKept (is_session id) P) (ground arith) h

-- The token is there, and was exchanged.
abbrev pub IsConsumed : ℕ → AuthTables → Type 0
IsConsumed id db = IsKept (is_token id) (λ t. is_some t.consumed_at ≡ true) db.tokens

-- The session is there, and was revoked.
abbrev pub IsRevoked : ℕ → AuthTables → Type 0
IsRevoked id db = IsKept (is_session id) (λ s. is_some s.revoked_at ≡ true) db.sessions

pub Reach-IsConsumed :
    (id : ℕ) (db db' : AuthTables) → Reach db db' → IsConsumed id db → IsConsumed id db'
Reach-IsConsumed id =
    reach-Good (IsConsumed id)
      (write-token id (λ t. is_some t.consumed_at ≡ true) (λ r at t e h. refl) (λ at t e h. h))

pub Reach-IsRevoked :
    (id : ℕ) (db db' : AuthTables) → Reach db db' → IsRevoked id db → IsRevoked id db'
Reach-IsRevoked id =
    reach-Good (IsRevoked id)
      (write-session id (λ s. is_some s.revoked_at ≡ true) (λ at s h. h) (λ at reason s e h. refl))
