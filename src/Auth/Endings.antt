-- ===== src/Auth/Endings.antt =====
-- The calls that end a session: a replayed refresh token, and a logout.
use domains_manager.Base.{
  ℕ, String, true, some, ◌≡◌, refl, subst, sym, eqb, arith, inl, inr, eqb_refl, Option-cases,
  str_eq, eq_iff,
}
use domains_manager.Base.Table.{find, find_sound}
use domains_manager.Base.Result.{err, refresh_token_replayed}
use domains_manager.Auth.{Session, RefreshToken, AuthTables}
use domains_manager.Auth.Sessions.{is_session, is_token, get_token, get_session}
use domains_manager.Auth.Security.{parse_refresh}
use domains_manager.Auth.Service.{AuthService, AuthContext, Draws}
use domains_manager.Auth.Service.Rotation.{
  Others, rotate_locked, rotate_refresh_token, rotation_failed, revoke_replayed_session,
  revoke_replayed_locked, resolve_refresh_session, logout, logout_locked,
}
use domains_manager.Base.Kept.{IsKept}
use domains_manager.Auth.Steps.{Reach}
use domains_manager.Auth.Sequences.{reach-Good}
use domains_manager.Auth.Forever.{IsRevoked, write-token, write-session}
use domains_manager.Auth.Revoked.{IsShut, revoke_session-IsShut}

resolved_session :
    (id : ℕ) (digest : String) (db : AuthTables) (token : RefreshToken) (session : Session)
    → get_token id db ≡ some token
    → str_eq token.token_hash digest ≡ true
    → get_session token.session_id db ≡ some session
    → resolve_refresh_session id digest db ≡ some session
unfolding resolve_refresh_session
resolved_session id digest db token session e m f = rw (e, resolve_refresh_session, m) f

pub session_named :
    (id : ℕ) (db : AuthTables) (session : Session)
    → get_session id db ≡ some session
    → session.id ≡ id
unfolding get_session
session_named id db session f = let named = find_sound (is_session id) db.sessions f in ground arith

rotate-consumed :
    (s : AuthService) (x : Draws) (id : ℕ) (digest : String) (context : AuthContext) (now : ℕ)
    (db : AuthTables) (token : RefreshToken) (session : Session) (at : ℕ)
    → get_token id db ≡ some token
    → str_eq token.token_hash digest ≡ true
    → get_session token.session_id db ≡ some session
    → token.consumed_at ≡ some at
    → rotate_locked s x id digest session context now db ≡ err refresh_token_replayed
unfolding rotate_locked
rotate-consumed s x id digest context now db token session at e m f c =
    let same : eqb token.session_id session.id ≡ true =
      rw (session_named token.session_id db session f) (eqb_refl token.session_id) in
    rw (e, rotate_locked, m, same, f, eqb_refl session.user_id, c) refl

replayed-revokes :
    (id : ℕ) (session : Session) (context : AuthContext) (now : ℕ) (db : AuthTables)
    → get_session id db ≡ some session
    → IsShut id (revoke_replayed_session (λ n d. d) id context now db)
unfolding revoke_replayed_session revoke_replayed_locked
replayed-revokes id session context now db f =
    let shut = revoke_session-IsShut id now "refresh_token_replayed" db session f in
    rw
      (
        f,
        revoke_replayed_session,
        revoke_replayed_locked,
        f,
        eqb_refl session.user_id,
        session_named id db session f,
      )
      shut

-- When nothing else is committed meanwhile, a refresh token that was exchanged before and is
-- presented again, with its session in place, raises the error of a replay, and shuts its session:
-- the session is revoked, and so is each of its tokens.
pub replay_shuts :
    (s : AuthService) (x : Draws) (value : String) (context : AuthContext) (now later : ℕ)
    (db : AuthTables) (id : ℕ) (digest : String) (token : RefreshToken) (session : Session) (at : ℕ)
    → parse_refresh s.crypto value ≡ some (id, digest)
    → get_token id db ≡ some token
    → str_eq token.token_hash digest ≡ true
    → get_session token.session_id db ≡ some session
    → token.consumed_at ≡ some at
    → let (answer, db') = rotate_refresh_token s x (λ n d. d) value context now later db in
      (answer ≡ err refresh_token_replayed) × IsShut token.session_id db'
unfolding rotate_refresh_token rotation_failed
replay_shuts s x value context now later db id digest token session at p e m f c =
    let found = resolved_session id digest db token session e m f in
    let refused = rotate-consumed s x id digest context now db token session at e m f c in
    let named = session_named token.session_id db session f in
    let shut = replayed-revokes token.session_id session context later db f in
    rw (p, rotate_refresh_token, found, refused, rotation_failed, named) (refl, shut)

-- A token that is there keeps its session and its digest.
abbrev IsFixed : ℕ → ℕ → String → AuthTables → Type 0
IsFixed id session digest db =
    IsKept (is_token id) (λ t. (t.session_id ≡ session) × (t.token_hash ≡ digest)) db.tokens

Reach-IsFixed :
    (id session : ℕ) (digest : String) (db db' : AuthTables)
    → Reach db db'
    → IsFixed id session digest db
    → IsFixed id session digest db'
Reach-IsFixed id session digest = reach-Good (IsFixed id session digest) (
    write-token id (λ t. (t.session_id ≡ session) × (t.token_hash ≡ digest)) (λ r at t e h. h)
      (λ at t e h. h))

abbrev IsOwned : ℕ → ℕ → AuthTables → Type 0
IsOwned id user db = IsKept (is_session id) (λ s. s.user_id ≡ user) db.sessions

Reach-IsOwned :
    (id user : ℕ) (db db' : AuthTables) → Reach db db' → IsOwned id user db → IsOwned id user db'
Reach-IsOwned id user =
    reach-Good (IsOwned id user)
      (write-session id (λ s. s.user_id ≡ user) (λ at s h. h) (λ at reason s e h. h))

logout_locked-IsRevoked :
    (id : ℕ) (digest : String) (resolved : Session) (context : AuthContext) (now : ℕ)
    (db : AuthTables)
    → IsFixed id resolved.id digest db
    → IsOwned resolved.id resolved.user_id db
    → IsRevoked resolved.id (logout_locked id digest resolved context now db)
unfolding logout_locked get_token get_session
logout_locked-IsRevoked id digest resolved context now db (t, e, (i, m)) (r, f, u) =
    let found : get_token id db ≡ some t = e in
    let there : get_session t.session_id db ≡ some r = rw (i) f in
    let named = session_named resolved.id db r f in
    let (shut, gone) = revoke_session-IsShut resolved.id now "logout" db r f in
    elim (Option-cases r.revoked_at) [
      | inl g ↦
          rw
            (
              found,
              logout_locked,
              there,
              m,
              i,
              u,
              (eq_iff digest digest).1 refl,
              eqb_refl resolved.id,
              eqb_refl resolved.user_id,
              g,
              named,
            )
            shut
      | inr (a, g) ↦
          rw
            (
              found,
              logout_locked,
              there,
              m,
              i,
              u,
              (eq_iff digest digest).1 refl,
              eqb_refl resolved.id,
              eqb_refl resolved.user_id,
              g,
            )
            (r, f, rw (g) refl)
    ]

-- A logout with a refresh token leaves the session of the token revoked, whatever transactions of
-- AuthService, of OAuthService and of the administrators who ban users and revoke sessions were
-- committed between its reading of the token and its own transaction.
pub logout_revokes :
    (s : AuthService) (others : Others) (value : String) (context : AuthContext) (now : ℕ)
    (db : AuthTables) (id : ℕ) (digest : String) (token : RefreshToken) (session : Session)
    → parse_refresh s.crypto value ≡ some (id, digest)
    → get_token id db ≡ some token
    → token.token_hash ≡ digest
    → get_session token.session_id db ≡ some session
    → Reach db (others 0 db)
    → IsRevoked token.session_id (logout s others value context now db)
unfolding logout get_token get_session
logout_revokes s others value context now db id digest token session p e m f r =
    let named = session_named token.session_id db session f in
    let found =
      resolved_session id digest db token session e (rw (m) ((eq_iff digest digest).1 refl)) f in
    let fixed = Reach-IsFixed id session.id digest db (others 0 db) r (token, e, (sym named, m)) in
    let owned =
      Reach-IsOwned session.id session.user_id db (others 0 db) r (
        session,
        subst (λ i. find (is_session i) db.sessions ≡ some session) (sym named) f,
        refl,
      ) in
    rw (p, logout, found)
      (subst (λ i. IsRevoked i (logout_locked id digest session context now (others 0 db))) named
        (logout_locked-IsRevoked id digest session context now (others 0 db) fixed owned))
