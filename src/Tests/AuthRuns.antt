-- ===== src/Tests/AuthRuns.antt =====
-- Accounts at concrete inputs.
use domains_manager.Base.{◌<◌, ◌≤◌, ◌≡◌, ◌≢◌, ◌⊎◌, true, false, none, some, [], ◌∷◌, refl, arith}
use domains_manager.Base.Table.{find, update, count, map_opt}
use domains_manager.Base.Result.{ok, err, Error, refresh_token_replayed}
use domains_manager.Auth.{User, Session, RefreshToken, AuthTables}
use domains_manager.Auth.Users.{get_by_id, update_user, try_claim, add_user}
use domains_manager.Auth.Sessions.{
  get_session, get_token, add_token, consume_token, touch_session, revoke_session,
  revoke_user_sessions,
}
use domains_manager.Auth.Security.{
  JwtClaims, split_dot, parse_refresh, claims_of, decode_access, issue_access,
}
use domains_manager.Auth.Service.{AuthenticatedUser, audit}
use domains_manager.Auth.Service.Rotation.{
  logout_locked, rotate_locked, exchange, rotate_refresh_token, authenticate_access_token,
}
use domains_manager.Auth.Service.Entry.{bootstrap_locked}
use domains_manager.Auth.Service.Changes.{change_password_locked}
use domains_manager.Auth.Steps.{Reach, here, next, rotates, logs_out}
use domains_manager.Auth.Forever.{IsRevoked}
use domains_manager.Auth.Live.{IsChained, Reach-IsChained}
use domains_manager.Auth.Names.{bootstrap_once}
use domains_manager.Auth.Replay.{exchanged_once, rotate_bounds}
use domains_manager.Auth.Revoked.{IsShut, revoked_forever, session_of, is_ok}
use domains_manager.Auth.Endings.{replay_shuts}
use domains_manager.Auth.Password.{change_password_ends}
use domains_manager.Auth.Windows.{access_window}
use domains_manager.Tests.AuthData.{
  crypto, claims, access, service, context, draws, user, session, token, tables, spent, pair,
  rotated, ones, from_ones, from_ones-ones,
}

rotates_once : rotate_locked service draws 2 "11.s" session context 200 tables ≡ ok (pair, rotated)
unfolding rotate_locked exchange get_token get_session get_by_id add_token consume_token
    touch_session ones find update count
rotates_once = refl

parses : parse_refresh service.crypto "11.s" ≡ some (2, "11.s")
unfolding parse_refresh split_dot from_ones
parses = refl

finds_token : get_token 2 tables ≡ some token
unfolding get_token find
finds_token = refl

finds_tables_session : get_session 3 tables ≡ some session
unfolding get_session find
finds_tables_session = refl

finds_spent : get_token 2 rotated ≡ some spent
unfolding get_token find
finds_spent = refl

finds_session : get_session 3 rotated ≡ some (record session { last_seen_at = 200 })
unfolding get_session find
finds_session = refl

-- The tables after a logout with the new token.
abbrev left : AuthTables
left = logout_locked 5 "11111.t" session context 300 rotated

leaves : Reach rotated left
leaves = next here (logs_out 5 "11111.t" session context 300 refl)

exchanged_once_example :
    (cause : Error) × (rotate_locked service draws 2 "11.s" session context 400 left ≡ err cause)
exchanged_once_example =
    exchanged_once service draws 2 "11.s" session context 200 pair tables rotated left rotates_once
      leaves draws "11.s" session context 400

replay_shuts_example :
    let (answer, db') =
      rotate_refresh_token service draws (λ n d. d) "11.s" context 300 301 rotated in
    (answer ≡ err refresh_token_replayed) × IsShut 3 db'
replay_shuts_example =
    replay_shuts service draws "11.s" context 300 301 rotated 2 "11.s" spent
      (record session { last_seen_at = 200 }) 200 parses finds_spent refl finds_session refl

left-IsRevoked : IsRevoked 3 left
unfolding logout_locked get_token get_session revoke_session find update
left-IsRevoked = (_, refl, refl)

revoked_forever_example :
    (session_of (authenticate_access_token service "jwt" 400 401 left) ≢ some 3)
    × ((map_opt (λ (t : RefreshToken). t.session_id) (get_token 5 left) ≢ some 3)
        ⊎ (is_ok (rotate_locked service draws 5 "11111.t" session context 401 left) ≡ false))
revoked_forever_example =
    revoked_forever 3 left left left-IsRevoked here service draws "jwt" 5 "11111.t" session context
      400 401

tables-IsChained : IsChained tables
unfolding find count
tables-IsChained sid = (λ e. ground arith, ground arith)

Reach-IsChained_example : IsChained rotated
Reach-IsChained_example =
    Reach-IsChained tables rotated
      (next here (rotates service draws 2 "11.s" session context 200 pair rotates_once))
      tables-IsChained

rotate_bounds_example :
    (t : RefreshToken) × (s : Session) × (new : RefreshToken) × (get_token 2 tables ≡ some t)
    × (get_session t.session_id tables ≡ some s)
    × (200 < t.expires_at)
    × (200 < s.absolute_expires_at)
    × (get_token 5 rotated ≡ some new)
    × (new.session_id ≡ t.session_id)
    × (new.consumed_at ≡ none)
    × (new.parent_token_id ≡ some t.id)
    × (new.expires_at ≤ 5200)
    × (new.expires_at ≤ s.absolute_expires_at)
rotate_bounds_example =
    rotate_bounds service draws 2 "11.s" session context 200 pair tables rotated rotates_once

abbrev empty : AuthTables
empty = record { users = []; sessions = []; tokens = []; audits = []; states = [] }

abbrev booted : AuthTables
booted = (bootstrap_locked user 7 empty).1

boots : (bootstrap_locked user 7 empty).0 ≡ true
unfolding bootstrap_locked try_claim add_user find
boots = refl

bootstrap_once_example :
    (empty.users ≡ [])
    × (booted.users ≡ user ∷ [])
    × (bootstrap_locked user 9 booted ≡ (false, booted))
bootstrap_once_example = bootstrap_once user 7 empty booted user 9 boots here

-- The same user with a second session.
abbrev other_session : Session
other_session = record session { id = 4 }

abbrev two_sessions : AuthTables
two_sessions = record tables { sessions = session ∷ other_session ∷ [] }

abbrev current : AuthenticatedUser
current = record { user = user; session = session }

abbrev changed : AuthTables
changed = record {
  users = record user { password_hash = "better"; password_changed_at = 8; updated_at = 8 } ∷ [];
  sessions =
      session
      ∷ record other_session { revoked_at = some 8; revoke_reason = some "password_changed" }
      ∷ [];
  tokens = token ∷ [];
  audits = audit "user.password_changed" 8 context 1 1 "user" ∷ [];
  states = [];
}

changes : change_password_locked current "better" context 7 two_sessions ≡ ok changed
unfolding change_password_locked get_by_id update_user revoke_user_sessions find update count
changes = refl

finds_user : get_by_id 1 two_sessions ≡ some user
unfolding get_by_id find
finds_user = refl

finds_other : get_session 4 two_sessions ≡ some other_session
unfolding get_session find
finds_other = refl

change_password_ends_example :
    ((u : User) × (get_by_id 1 changed ≡ some u)
      × (u.password_hash ≡ "better")
      × (7 < u.password_changed_at))
    × (((other_session.id ≡ session.id) × (get_session 4 changed ≡ some other_session))
        ⊎ ((other_session.id ≢ session.id) × IsRevoked 4 changed))
change_password_ends_example =
    change_password_ends current "better" context 7 two_sessions changed user 4 other_session
      finds_user finds_other refl changes

-- What the token that is issued at 100.0002 seconds holds.
abbrev seen : JwtClaims
seen = record claims { sub = ones 1; sid = ones 3; jti = ones 4 }

decodes :
    (crypto seen).decode
      ((crypto seen).encode (claims_of (crypto seen) access 4 1 3 7 100000200))
      "web"
      "dm"
    ≡ some (claims_of (crypto seen) access 4 1 3 7 100000200)
unfolding claims_of
decodes = refl

access_window_example :
    decode_access
      (crypto seen)
      access
      (issue_access (crypto seen) access 4 1 3 7 100000200)
      999000000
    ≡ ok (record {
      user_id = 1;
      session_id = 3;
      issued_at = 100000000;
      expires_at = 1000000000;
      token_id = 4;
      password_version = 7;
    })
access_window_example =
    access_window (crypto seen) access 4 1 3 7 100000200 999000000 decodes from_ones-ones
