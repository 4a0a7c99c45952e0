-- ===== src/Auth/Returns.antt =====
-- What a rotation that returned found.
use domains_manager.Base.{ℕ, String, true, Option, some, none, ◌≡◌, eqb, str_eq, arith, is_none}
use domains_manager.Base.Result.{
  Error, ok, bind_ok, or_raise, guard, invalid_token, refresh_token_replayed,
}
use domains_manager.Auth.{User, Session, RefreshToken, AuthTables}
use domains_manager.Auth.Users.{get_by_id}
use domains_manager.Auth.Sessions.{get_session, get_token}
use domains_manager.Auth.Service.{
  AuthService, AuthContext, Draws, TokenPair, ensure_user_active, token_is_active,
}
use domains_manager.Auth.Service.Rotation.{rotate_locked, exchange}

pub or_raise_ok :
    {T : Type 0} (o : Option T) (cause : Error) {t : T} → or_raise o cause ≡ ok t → o ≡ some t
or_raise_ok (some x) cause h = ground arith
or_raise_ok none cause h = absurd (ground arith)

-- What a rotation that returned found: the token and its session, fit for an exchange.
pub record Rotates (s : AuthService) (x : Draws) (id : ℕ) (digest : String) (resolved : Session)
    (context : AuthContext) (now : ℕ) (pair : TokenPair) (db db' : AuthTables) : Type 0 where
  pub token : RefreshToken
  pub session : Session
  pub user : User
  pub token_found : get_token id db ≡ some token
  pub is_token : str_eq token.token_hash digest ≡ true
  pub session_found : get_session token.session_id db ≡ some session
  pub unconsumed : token.consumed_at ≡ none
  pub active : token_is_active token session now ≡ true
  pub user_found : get_by_id session.user_id db ≡ some user
  pub allowed : user.is_active ≡ true
  pub not_banned : user.banned_at ≡ none
  pub exchanged : exchange s x token session user context now db ≡ ok (pair, db')

pub rotate_locked-Rotates :
    (s : AuthService) (x : Draws) (id : ℕ) (digest : String) (resolved : Session)
    (context : AuthContext) (now : ℕ) (pair : TokenPair) (db db' : AuthTables)
    → rotate_locked s x id digest resolved context now db ≡ ok (pair, db')
    → Rotates s x id digest resolved context now pair db db'
unfolding rotate_locked
rotate_locked-Rotates s x id digest resolved context now pair db db' h =
    let (token, e, k) = bind_ok (or_raise (get_token id db) invalid_token) _ h in
    let (a, e1, k1) = bind_ok (guard (str_eq token.token_hash digest) invalid_token) _ k in
    let (b, e2, k2) = bind_ok (guard (eqb token.session_id resolved.id) invalid_token) _ k1 in
    let (session, e3, k3) =
      bind_ok (or_raise (get_session token.session_id db) invalid_token) _ k2 in
    let (c, e4, k4) = bind_ok (guard (eqb session.user_id resolved.user_id) invalid_token) _ k3 in
    let (d, e5, k5) = bind_ok (guard (is_none token.consumed_at) refresh_token_replayed) _ k4 in
    let (f, e6, k6) = bind_ok (guard (token_is_active token session now) invalid_token) _ k5 in
    let (user, e7, k7) = bind_ok (or_raise (get_by_id session.user_id db) invalid_token) _ k6 in
    let (g, e8, k8) = bind_ok (ensure_user_active user) _ k7 in
    record {
      token = token;
      session = session;
      user = user;
      token_found = or_raise_ok (get_token id db) _ e;
      is_token = ground arith;
      session_found = or_raise_ok (get_session token.session_id db) _ e3;
      unconsumed = ground arith;
      active = ground arith;
      user_found = or_raise_ok (get_by_id session.user_id db) _ e7;
      allowed = ground arith;
      not_banned = ground arith;
      exchanged = k8;
    }
