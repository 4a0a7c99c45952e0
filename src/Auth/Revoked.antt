-- ===== src/Auth/Revoked.antt =====
-- What revokes a session, and what a revoked session is refused.
use domains_manager.Base.{
  ℕ, String, Bool, true, false, ◌&&◌, Option, some, none, ◌≡◌, ◌≢◌, ◌⊎◌, refl, subst, eqb, arith,
  inl, inr, is_none, Option-cases, ltb,
}
use domains_manager.Base.Table.{find, find-update, find_sound, find-update-none, map_opt}
use domains_manager.Base.Result.{
  Result, ok, err, bind_ok, Result-cases, or_raise, guard, invalid_token,
}
use domains_manager.Auth.{Session, RefreshToken, AuthTables}
use domains_manager.Auth.Users.{get_by_id}
use domains_manager.Auth.Sessions.{
  is_session, get_token, get_session, closed, withdrawn, is_open, is_unrevoked_of, revoke_session,
}
use domains_manager.Auth.Security.{decode_access}
use domains_manager.Auth.Service.{
  AuthService, AuthContext, Draws, AuthenticatedUser, token_is_active, ensure_user_active,
}
use domains_manager.Auth.Service.Rotation.{rotate_locked, authenticate_access_token}
use domains_manager.Auth.Steps.{Reach}
use domains_manager.Auth.Returns.{rotate_locked-Rotates, or_raise_ok}
use domains_manager.Auth.Forever.{IsRevoked, Reach-IsRevoked}

-- The session that a call authenticated.
abbrev pub session_of : Result AuthenticatedUser → Option ℕ
session_of (ok current) = some current.session.id
session_of (err cause) = none

abbrev pub is_ok {ℓ} : {T : Type ℓ} → Result T → Bool
is_ok (ok t) = true
is_ok (err cause) = false

-- Who is authenticated has a session that is open and not expired, and a user that is active.
pub authenticated :
    (s : AuthService) (token : String) (decoded_at now : ℕ) (db : AuthTables)
    (current : AuthenticatedUser)
    → authenticate_access_token s token decoded_at now db ≡ ok current
    → (get_session current.session.id db ≡ some current.session)
      × (current.session.revoked_at ≡ none)
      × (ltb now current.session.absolute_expires_at ≡ true)
      × (get_by_id current.session.user_id db ≡ some current.user)
      × (current.user.is_active ≡ true)
      × (current.user.banned_at ≡ none)
unfolding authenticate_access_token get_session get_by_id
authenticated s token decoded_at now db current h =
    let (claims, e, k) = bind_ok (decode_access s.crypto s.access_tokens token decoded_at) _ h in
    let (user, e1, k1) = bind_ok (or_raise (get_by_id claims.user_id db) invalid_token) _ k in
    let (session, e2, k2) =
      bind_ok (or_raise (get_session claims.session_id db) invalid_token) _ k1 in
    let (a, e3, k3) = bind_ok (guard (eqb session.user_id claims.user_id) invalid_token) _ k2 in
    let (b, e4, k4) = bind_ok (ensure_user_active user) _ k3 in
    let (c, e5, k5) =
      bind_ok
        (guard (is_none session.revoked_at && ltb now session.absolute_expires_at) invalid_token) _
        k4 in
    let (d, e6, k6) =
      bind_ok
        (guard (eqb claims.password_version (s.crypto.timestamp user.password_changed_at))
          invalid_token)
        _ k5 in
    let found = or_raise_ok (get_session claims.session_id db) _ e2 in
    let known = or_raise_ok (get_by_id claims.user_id db) _ e1 in
    let is_it = find_sound (is_session claims.session_id) db.sessions found in
    let same : current ≡ record { user = user; session = session } = ground arith in
    let sid : claims.session_id ≡ session.id = ground arith in
    let uid : claims.user_id ≡ session.user_id = ground arith in
    rw (same) (
      subst (λ i. get_session i db ≡ some session) sid found,
      ground arith,
      ground arith,
      subst (λ i. get_by_id i db ≡ some user) uid known,
      ground arith,
      ground arith,
    )

revoked_unauthenticated :
    (id : ℕ) (s : AuthService) (token : String) (decoded_at now : ℕ) (db : AuthTables)
    → IsRevoked id db
    → session_of (authenticate_access_token s token decoded_at now db) ≢ some id
unfolding get_session
revoked_unauthenticated id s token decoded_at now db (r, e, h) f =
    elim (Result-cases (authenticate_access_token s token decoded_at now db)) [
      | inr (cause, g) ↦ absurd (ground arith)
      | inl (current, g) ↦
          let (a, b, c, d, u, v) = authenticated s token decoded_at now db current g in
          let same : current.session.id ≡ id = ground arith in
          let found = subst (λ i. find (is_session i) db.sessions ≡ some current.session) same a in
          absurd (ground arith)
    ]

revoked_unrotated :
    (id : ℕ) (s : AuthService) (x : Draws) (token : ℕ) (digest : String) (resolved : Session)
    (context : AuthContext) (now : ℕ) (db : AuthTables)
    → IsRevoked id db
    → (map_opt (λ (t : RefreshToken). t.session_id) (get_token token db) ≢ some id)
      ⊎ (is_ok (rotate_locked s x token digest resolved context now db) ≡ false)
unfolding get_session
revoked_unrotated id s x token digest resolved context now db (r, e, h) =
    elim (Result-cases (rotate_locked s x token digest resolved context now db)) [
      | inr (cause, g) ↦ inr (ground arith)
      | inl ((pair, db'), g) ↦
          let q = rotate_locked-Rotates s x token digest resolved context now pair db db' g in
          let active : token_is_active q.token q.session now ≡ true = q.active in
          let there : find (is_session q.token.session_id) db.sessions ≡ some q.session =
            q.session_found in
          let it : get_token token db ≡ some q.token = q.token_found in
          inl (λ same.
            let here : q.token.session_id ≡ id = ground arith in
            let found = subst (λ i. find (is_session i) db.sessions ≡ some q.session) here there in
            absurd (ground arith))
    ]

-- A session that was revoked stays useless: whatever transactions of AuthService, of OAuthService and
-- of the administrators who ban users and revoke sessions are committed afterwards, no access token is
-- authenticated for it, and the exchange of a refresh token of it raises.
pub revoked_forever :
    (id : ℕ) (db db' : AuthTables)
    → IsRevoked id db
    → Reach db db'
    → (s : AuthService) (x : Draws) (text : String) (token : ℕ) (digest : String)
      (resolved : Session) (context : AuthContext) (decoded_at now : ℕ)
    → (session_of (authenticate_access_token s text decoded_at now db') ≢ some id)
      × ((map_opt (λ (t : RefreshToken). t.session_id) (get_token token db') ≢ some id)
          ⊎ (is_ok (rotate_locked s x token digest resolved context now db') ≡ false))
revoked_forever id db db' h r s x text token digest resolved context decoded_at now =
    let later = Reach-IsRevoked id db db' r h in
    (
      revoked_unauthenticated id s text decoded_at now db' later,
      revoked_unrotated id s x token digest resolved context now db' later,
    )

-- The session, if it is there, is revoked, and no token of it is left unrevoked.
abbrev pub IsShut : ℕ → AuthTables → Type 0
IsShut id db = IsRevoked id db × (find (is_unrevoked_of id) db.tokens ≡ none)

pub revoke_session-IsShut :
    (id at : ℕ) (reason : String) (db : AuthTables) (session : Session)
    → get_session id db ≡ some session
    → IsShut id (revoke_session id at reason db)
unfolding revoke_session get_session
revoke_session-IsShut id at reason db session e =
    let kept =
      find-update (is_session id) (is_open id) (closed at reason) db.sessions (λ s q. refl) in
    let named = find_sound (is_session id) db.sessions e in
    let gone =
      find-update-none (is_unrevoked_of id) (withdrawn at) db.tokens (λ t q. ground arith) in
    elim (Option-cases session.revoked_at) [
      | inl f ↦
          let hit : is_open id session ≡ true = ground arith in
          ((closed at reason session, rw (kept, e, hit) refl, refl), gone)
      | inr (a, f) ↦
          let miss : is_open id session ≡ false = ground arith in
          ((session, rw (kept, e, miss) refl, rw (f) refl), gone)
    ]
