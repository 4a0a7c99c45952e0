-- ===== src/Auth/Service/Rotation.antt =====
-- `rotate_refresh_token`, `logout`, `authenticate_access_token`, `validate_refresh_session` and
-- `get_user` of AuthService. A call is several transactions; `others n` is what other processes
-- commit before the transaction that follows the n-th one.
use domains_manager.Base.{
  ℕ, ◌+◌, String, Bool, true, false, ◌&&◌, Option, none, some, eqb, ltb, min, str_eq, if◌then◌else◌,
  is_none,
}
use domains_manager.Base.Table.{map_opt}
use domains_manager.Base.Result.{
  Error, Result, ok, err, invalid_token, refresh_token_replayed, concurrent_update,
  duplicate_record, or_raise, guard, ◌>>=◌, ◌>>◌,
}
use domains_manager.Auth.{User, Session, RefreshToken, AuthTables}
use domains_manager.Auth.Users.{get_by_id, add_audit}
use domains_manager.Auth.Sessions.{
  get_session, get_token, add_token, consume_token, touch_session, revoke_session,
}
use domains_manager.Auth.Security.{parse_refresh, issue_refresh, decode_access}
use domains_manager.Auth.Service.{
  AuthService, AuthContext, Draws, TokenPair, AuthenticatedUser, token_pair, token_is_active,
  ensure_user_active, audit,
}

abbrev pub Others : Type 0
Others = ℕ → AuthTables → AuthTables

-- `_resolve_refresh_session`
unfoldable pub resolve_refresh_session : ℕ → String → AuthTables → Option Session
resolve_refresh_session id digest db = elim (get_token id db) [
  | none ↦ none
  | some token ↦ if str_eq token.token_hash digest then get_session token.session_id db else none
]

abbrev pub replacement : AuthService → Draws → RefreshToken → Session → ℕ → RefreshToken
replacement s x token session now = record {
  id = x.token_id;
  session_id = session.id;
  parent_token_id = some token.id;
  replaced_by_token_id = none;
  token_hash = (issue_refresh s.crypto x.token_id x.secret).digest;
  issued_at = now;
  expires_at = min (now + s.refresh_ttl) session.absolute_expires_at;
  consumed_at = none;
  revoked_at = none;
}

-- The writes of a rotation that passed its tests.
unfoldable pub exchange :
    AuthService
    → Draws
    → RefreshToken
    → Session
    → User
    → AuthContext
    → ℕ
    → AuthTables
    → Result (TokenPair × AuthTables)
exchange s x token session user context now db = do
  db1 ← add_token (replacement s x token session now) db
  db2 ← consume_token token.id x.token_id now db1
  db3 ← touch_session session.id now db2
  ok (
    token_pair s x user session.id (issue_refresh s.crypto x.token_id x.secret).value now,
    add_audit (audit "session.refreshed" now context user.id session.id "session") db3,
  )

-- The transaction of `rotate_refresh_token` under the lock of the user.
unfoldable pub rotate_locked :
    AuthService
    → Draws
    → ℕ
    → String
    → Session
    → AuthContext
    → ℕ
    → AuthTables
    → Result (TokenPair × AuthTables)
rotate_locked s x id digest resolved context now db = do
  token ← or_raise (get_token id db) invalid_token
  guard (str_eq token.token_hash digest) invalid_token
  guard (eqb token.session_id resolved.id) invalid_token
  session ← or_raise (get_session token.session_id db) invalid_token
  guard (eqb session.user_id resolved.user_id) invalid_token
  guard (is_none token.consumed_at) refresh_token_replayed
  guard (token_is_active token session now) invalid_token
  user ← or_raise (get_by_id session.user_id db) invalid_token
  ensure_user_active user
  exchange s x token session user context now db

-- The second transaction of `_revoke_replayed_session`.
unfoldable pub revoke_replayed_locked : ℕ → Session → AuthContext → ℕ → AuthTables → AuthTables
revoke_replayed_locked id resolved context now db = elim (get_session id db) [
  | none ↦ db
  | some session ↦
      if eqb session.user_id resolved.user_id
      then add_audit
          (audit "session.refresh_replayed" now context session.user_id session.id "session")
          (revoke_session session.id now "refresh_token_replayed" db)
      else db
]

-- `_revoke_replayed_session`
unfoldable pub revoke_replayed_session : Others → ℕ → AuthContext → ℕ → AuthTables → AuthTables
revoke_replayed_session others id context now db = elim (get_session id db) [
  | none ↦ db
  | some resolved ↦ revoke_replayed_locked id resolved context now (others 3 db)
]

abbrev pub is_conflict : Error → Bool
is_conflict concurrent_update = true
is_conflict duplicate_record = true
is_conflict _ = false

abbrev pub is_replay : Error → Bool
is_replay refresh_token_replayed = true
is_replay _ = false

-- `_session_id_for_token`
abbrev pub session_id_for_token : ℕ → AuthTables → Option ℕ
session_id_for_token id db = map_opt (λ (t : RefreshToken). t.session_id) (get_token id db)

-- What follows when a session is revoked for a replay, or none is known.
abbrev pub replayed :
    Others → Option ℕ → AuthContext → ℕ → AuthTables → Result TokenPair × AuthTables
replayed others none context now db = (err invalid_token, db)
replayed others (some session) context now db =
    (err refresh_token_replayed, revoke_replayed_session others session context now (others 2 db))

-- What follows when the locked transaction raised, and was rolled back.
unfoldable pub rotation_failed :
    Error → Others → ℕ → Session → AuthContext → ℕ → AuthTables → Result TokenPair × AuthTables
rotation_failed cause others id resolved context now db =
    if is_conflict cause
    then replayed others (session_id_for_token id (others 1 db)) context now (others 1 db)
    else if is_replay cause
    then replayed others (some resolved.id) context now db
    else (err cause, db)

-- `rotate_refresh_token`, with the readings of the clock for its tests and for a revocation.
unfoldable pub rotate_refresh_token :
    AuthService
    → Draws
    → Others
    → String
    → AuthContext
    → ℕ
    → ℕ
    → AuthTables
    → Result TokenPair × AuthTables
rotate_refresh_token s x others value context now later db = elim (parse_refresh s.crypto value) [
  | none ↦ (err invalid_token, db)
  | some (id, digest) ↦ elim (resolve_refresh_session id digest db) [
    | none ↦ (err invalid_token, db)
    | some resolved ↦
        let db1 = others 0 db in
        elim (rotate_locked s x id digest resolved context now db1) [
          | ok (pair, db2) ↦ (ok pair, db2)
          | err cause ↦ rotation_failed cause others id resolved context later db1
        ]
  ]
]

-- The transaction of `logout` under the lock of the user.
unfoldable pub logout_locked : ℕ → String → Session → AuthContext → ℕ → AuthTables → AuthTables
logout_locked id digest resolved context now db = elim (get_token id db) [
  | none ↦ db
  | some token ↦ elim (get_session token.session_id db) [
    | none ↦ db
    | some session ↦
        if str_eq token.token_hash digest
          && eqb token.session_id resolved.id
          && eqb session.user_id resolved.user_id
          && is_none session.revoked_at
        then add_audit (audit "session.revoked" now context session.user_id session.id "session")
            (revoke_session session.id now "logout" db)
        else db
  ]
]

-- `logout`
unfoldable pub logout : AuthService → Others → String → AuthContext → ℕ → AuthTables → AuthTables
logout s others value context now db = elim (parse_refresh s.crypto value) [
  | none ↦ db
  | some (id, digest) ↦ elim (resolve_refresh_session id digest db) [
    | none ↦ db
    | some resolved ↦ logout_locked id digest resolved context now (others 0 db)
  ]
]

-- `authenticate_access_token`, with its two readings of the clock.
unfoldable pub authenticate_access_token :
    AuthService → String → ℕ → ℕ → AuthTables → Result AuthenticatedUser
authenticate_access_token s token decoded_at now db = do
  claims ← decode_access s.crypto s.access_tokens token decoded_at
  user ← or_raise (get_by_id claims.user_id db) invalid_token
  session ← or_raise (get_session claims.session_id db) invalid_token
  guard (eqb session.user_id claims.user_id) invalid_token
  ensure_user_active user
  guard (is_none session.revoked_at && ltb now session.absolute_expires_at) invalid_token
  guard (eqb claims.password_version (s.crypto.timestamp user.password_changed_at)) invalid_token
  ok (record { user = user; session = session })

-- `validate_refresh_session`
unfoldable pub validate_refresh_session :
    AuthService → String → ℕ → ℕ → AuthTables → Result (Unit {0})
validate_refresh_session s value expected now db = elim (parse_refresh s.crypto value) [
  | none ↦ err invalid_token
  | some (id, digest) ↦ (do
    token ← or_raise (get_token id db) invalid_token
    session ← or_raise (get_session expected db) invalid_token
    guard (eqb token.session_id expected) invalid_token
    guard (is_none token.consumed_at) invalid_token
    guard (str_eq token.token_hash digest) invalid_token
    guard (token_is_active token session now) invalid_token)
]

-- `get_user`
unfoldable pub get_user : ℕ → AuthTables → Result User
get_user id db = do
  user ← or_raise (get_by_id id db) invalid_token
  ensure_user_active user
  ok user
