-- ===== src/Auth/Parts.antt =====
-- The writes that each transaction of AuthService and of the administration is made of.
use domains_manager.Base.{
  ℕ, String, true, Option, some, none, ◌≡◌, refl, eqb, str_eq, inl, inr, Bool-cases, Option-cases,
  arith, is_none, not, ◌&&◌, eqb_refl, subst, max, ◌+◌, [], ◌∷◌,
}
use domains_manager.Base.Dict.{Dict}
use domains_manager.Base.Result.{
  ok, bind_ok, Result-cases, or_raise, guard, username_taken, invalid_credentials, invalid_token,
  record_not_found, cannot_revoke_current_session,
}
use domains_manager.Models.{Json}
use domains_manager.Auth.{User, Session, RefreshToken, AuthTables}
use domains_manager.Auth.Users.{
  is_user, logged_in, with_profile, with_preferences, with_password, add_user, update_user,
  set_last_login, update_password, update_preferences, update_profile as write_profile, try_claim,
  get_by_id, get_by_username, count_users,
}
use domains_manager.Auth.Sessions.{is_consumable, get_session, get_token}
use domains_manager.Auth.Service.{
  AuthService, AuthContext, Draws, AuthenticationResult, AuthenticatedUser, TokenPair,
  create_session, audit, ensure_user_active, token_is_active,
}
use domains_manager.Auth.Service.Rotation.{rotate_locked, revoke_replayed_locked, logout_locked}
use domains_manager.Auth.Service.Entry.{register_locked, login_named, bootstrap_locked}
use domains_manager.Auth.Service.Changes.{
  change_password_locked, update_profile, update_settings, set_ban_state, ban_user, unban_user,
  is_bannable, banned, revoke_user_session, is_pardonable, pardoned, admin_event,
}
use domains_manager.Auth.Returns.{rotate_locked-Rotates}
use domains_manager.Auth.Writes.{
  Write, Writes, still, ◌▹◌, adds, sets, opens, exchanges, revokes, revokes_all, closes, notes,
  claims,
}
use domains_manager.Base.Table.{find_sound, count, map_opt}

-- A method that sets columns of one user.
pub update_user-Write :
    (id : ℕ) (f : User → User) (db db' : AuthTables)
    → ((u : User) → (f u).id ≡ u.id)
    → update_user id f db ≡ ok db'
    → Write db db'
unfolding update_user
update_user-Write id f db db' same h = sets (is_user id) f same (ground arith)

pub register_locked-Writes :
    (s : AuthService) (x : Draws) (user : User) (context : AuthContext) (now : ℕ)
    (result : AuthenticationResult) (db db' : AuthTables)
    → register_locked s x user context now db ≡ ok (result, db')
    → Writes db db'
unfolding register_locked
register_locked-Writes s x user context now result db db' h =
    let (u, e, k) =
      bind_ok (guard (is_none (get_by_username user.username_normalized db)) username_taken) _ h in
    let (db1, e1, k1) = bind_ok (add_user user db) _ k in
    let ((r, db2), e2, k2) = bind_ok (create_session s x user context now db1) _ k1 in
    still
    ▹ adds user e1
    ▹ opens s x user context now r e2
    ▹ notes (audit "user.registered" now context user.id user.id "user") (ground arith)

pub login_named-Writes :
    (s : AuthService) (x : Draws) (name password : String) (context : AuthContext) (now : ℕ)
    (result : AuthenticationResult) (db db' : AuthTables)
    → login_named s x name password context now db ≡ ok (result, db')
    → Writes db db'
unfolding login_named
login_named-Writes s x name password context now result db db' h =
    let (user, e, k) = bind_ok (or_raise (get_by_username name db) invalid_credentials) _ h in
    let (a, e1, k1) = bind_ok (guard user.password_auth_enabled invalid_credentials) _ k in
    let (b, e2, k2) =
      bind_ok (guard (s.crypto.verify password user.password_hash) invalid_credentials) _ k1 in
    let (c, e3, k3) =
      bind_ok (guard (user.is_active && is_none user.banned_at) invalid_credentials) _ k2 in
    let (db1, e4, k4) = bind_ok (set_last_login user.id now db) _ k3 in
    let ((r, db2), e5, k5) = bind_ok (create_session s x user context now db1) _ k4 in
    still
    ▹ update_user-Write user.id (logged_in now) db db1 (λ u. refl) e4
    ▹ opens s x user context now r e5
    ▹ notes (audit "session.created" now context user.id user.id "user") (ground arith)

pub rotate_locked-Write :
    (s : AuthService) (x : Draws) (id : ℕ) (digest : String) (resolved : Session)
    (context : AuthContext) (now : ℕ) (pair : TokenPair) (db db' : AuthTables)
    → rotate_locked s x id digest resolved context now db ≡ ok (pair, db')
    → Write db db'
unfolding get_token
rotate_locked-Write s x id digest resolved context now pair db db' h =
    let r = rotate_locked-Rotates s x id digest resolved context now pair db db' h in
    let same : id ≡ r.token.id =
      ground (arith, find_sound (λ (t : RefreshToken). eqb t.id id) db.tokens r.token_found) in
    let token = r.token in
    let fresh : token.consumed_at ≡ none = r.unconsumed in
    let active : token_is_active token r.session now ≡ true = r.active in
    let mine = eqb_refl token.id in
    let usable : is_consumable token.id token ≡ true = ground arith in
    exchanges s x r.token r.session r.user context now pair
      (subst (λ i. get_token i db ≡ some r.token) same r.token_found) r.session_found usable
      r.exchanged

pub revoke_replayed-Writes :
    (id : ℕ) (resolved : Session) (context : AuthContext) (now : ℕ) (db : AuthTables)
    → Writes db (revoke_replayed_locked id resolved context now db)
unfolding revoke_replayed_locked
revoke_replayed-Writes id resolved context now db = elim (Option-cases (get_session id db)) [
  | inl e ↦ rw (e, revoke_replayed_locked) still
  | inr (session, e) ↦ elim (Bool-cases (eqb session.user_id resolved.user_id)) [
    | inl f ↦
        rw (e, f, revoke_replayed_locked)
          (still ▹ revokes session.id now "refresh_token_replayed" refl ▹ notes _ refl)
    | inr f ↦ rw (e, f, revoke_replayed_locked) still
  ]
]

pub logout_locked-Writes :
    (id : ℕ) (digest : String) (resolved : Session) (context : AuthContext) (now : ℕ)
    (db : AuthTables)
    → Writes db (logout_locked id digest resolved context now db)
unfolding logout_locked
logout_locked-Writes id digest resolved context now db = elim (Option-cases (get_token id db)) [
  | inl e ↦ rw (e, logout_locked) still
  | inr (token, e) ↦ elim (Option-cases (get_session token.session_id db)) [
    | inl f ↦ rw (e, f, logout_locked) still
    | inr (session, f) ↦
        elim (Bool-cases (
          str_eq token.token_hash digest
          && eqb token.session_id resolved.id
          && eqb session.user_id resolved.user_id
          && is_none session.revoked_at)) [
            | inl g ↦
                rw (e, f, g, logout_locked)
                  (still ▹ revokes session.id now "logout" refl ▹ notes _ refl)
            | inr g ↦ rw (e, f, g, logout_locked) still
          ]
  ]
]

pub change_password-Writes :
    (current : AuthenticatedUser) (hash : String) (context : AuthContext) (clock : ℕ)
    (db db' : AuthTables)
    → change_password_locked current hash context clock db ≡ ok db'
    → Writes db db'
unfolding change_password_locked
change_password-Writes current hash context clock db db' h =
    let (user, e, k) = bind_ok (or_raise (get_by_id current.user.id db) invalid_token) _ h in
    let (a, e1, k1) =
      bind_ok (guard (str_eq user.password_hash current.user.password_hash) invalid_token) _ k in
    let (b, e2, k2) = bind_ok (ensure_user_active user) _ k1 in
    let now = max clock (user.password_changed_at + 1) in
    let (db1, e3, k3) = bind_ok (update_password user.id hash now db) _ k2 in
    still
    ▹ update_user-Write user.id (with_password hash now) db db1 (λ u. refl) e3
    ▹ revokes_all user.id now "password_changed" (some current.session.id) refl
    ▹ notes (audit "user.password_changed" now context user.id user.id "user") (ground arith)

pub update_profile-Writes :
    (id : ℕ) (email : Option String) (context : AuthContext) (now : ℕ) (db db' : AuthTables)
    → update_profile id email context now db ≡ ok db'
    → Writes db db'
unfolding update_profile
update_profile-Writes id email context now db db' h =
    let (user, e, k) = bind_ok (or_raise (get_by_id id db) invalid_token) _ h in
    let (b, e1, k1) = bind_ok (ensure_user_active user) _ k in
    let (db1, e2, k2) =
      bind_ok (write_profile user.id email (map_opt (λ e. now) email) now db) _ k1 in
    still
    ▹ update_user-Write user.id (with_profile email (map_opt (λ e. now) email) now) db db1
        (λ u. refl) e2
    ▹ notes (audit "user.profile_updated" now context user.id user.id "user") (ground arith)

pub update_settings-Writes :
    (id : ℕ) (preferences : Dict String Json) (context : AuthContext) (now : ℕ)
    (db db' : AuthTables)
    → update_settings id preferences context now db ≡ ok db'
    → Writes db db'
unfolding update_settings
update_settings-Writes id preferences context now db db' h =
    let (user, e, k) = bind_ok (or_raise (get_by_id id db) invalid_token) _ h in
    let (b, e1, k1) = bind_ok (ensure_user_active user) _ k in
    let (db1, e2, k2) = bind_ok (update_preferences user.id preferences now db) _ k1 in
    still
    ▹ update_user-Write user.id (with_preferences preferences now) db db1 (λ u. refl) e2
    ▹ notes (audit "user.settings_updated" now context user.id user.id "user") (ground arith)

pub bootstrap-Writes :
    (user : User) (now : ℕ) (db : AuthTables) → Writes db (bootstrap_locked user now db).1
unfolding bootstrap_locked
bootstrap-Writes user now db =
    let (claimed, db1) = try_claim "bootstrap_admin" now db in
    elim (Bool-cases (try_claim "bootstrap_admin" now db).0) [
      | inr e ↦ rw (e) still
      | inl e ↦ elim (Bool-cases (eqb (count_users (try_claim "bootstrap_admin" now db).1) 0)) [
        | inr f ↦ rw (e, f) (still ▹ claims "bootstrap_admin" now refl)
        | inl f ↦ elim (Result-cases (add_user user (try_claim "bootstrap_admin" now db).1)) [
          | inl (db2, g) ↦
              rw (e, f, g) (still ▹ claims "bootstrap_admin" now refl ▹ adds user g ▹ notes _ refl)
          | inr (cause, g) ↦ rw (e, f, g) still
        ]
      ]
    ]

pub ban-Writes :
    (id admin : ℕ) (request : Option String) (reason : String) (now : ℕ) (db db' : AuthTables)
    → ban_user id admin request reason now db ≡ ok db'
    → Writes db db'
unfolding ban_user
ban-Writes id admin request reason now db db' h =
    let (user, e, k) = bind_ok (or_raise (get_by_id id db) record_not_found) _ h in
    elim (Bool-cases (eqb (count (is_bannable id) db.users) 1)) [
      | inl f ↦
          still
          ▹ sets (is_bannable id) (banned admin now reason) (λ u. refl) refl
          ▹ closes id now refl
          ▹ notes
              (admin_event "admin.user_banned" now admin "user" id request
                (("reason", reason) ∷ []))
              (ground arith)
      | inr f ↦ let same : db ≡ db' = ground arith in subst (Writes db) same still
    ]

pub unban-Writes :
    (id admin : ℕ) (request : Option String) (now : ℕ) (db db' : AuthTables)
    → unban_user id admin request now db ≡ ok db'
    → Writes db db'
unfolding unban_user
unban-Writes id admin request now db db' h =
    let (user, e, k) = bind_ok (or_raise (get_by_id id db) record_not_found) _ h in
    elim (Bool-cases (eqb (count (is_pardonable id) db.users) 1)) [
      | inl f ↦
          still
          ▹ sets (is_pardonable id) (pardoned now) (λ u. refl) refl
          ▹ notes (admin_event "admin.user_unbanned" now admin "user" id request []) (ground arith)
      | inr f ↦ let same : db ≡ db' = ground arith in subst (Writes db) same still
    ]

pub set_ban_state-Writes :
    (id admin : ℕ) (request reason : Option String) (now : ℕ) (db db' : AuthTables)
    → set_ban_state id admin request reason now db ≡ ok db'
    → Writes db db'
unfolding set_ban_state
set_ban_state-Writes id admin request none now db db' h = unban-Writes id admin request now db db' h
set_ban_state-Writes id admin request (some reason) now db db' h =
    elim (Bool-cases (str_eq reason "")) [
      | inl e ↦ unban-Writes id admin request now db db' (ground arith)
      | inr e ↦ ban-Writes id admin request reason now db db' (ground arith)
    ]

pub admin_revoke-Writes :
    (user id current admin : ℕ) (request : Option String) (user_text : String) (now : ℕ)
    (db db' : AuthTables)
    → revoke_user_session user id current admin request user_text now db ≡ ok db'
    → Writes db db'
unfolding revoke_user_session
admin_revoke-Writes user id current admin request user_text now db db' h =
    let (session, e, k) = bind_ok (or_raise (get_session id db) record_not_found) _ h in
    let (a, e1, k1) = bind_ok (guard (eqb session.user_id user) record_not_found) _ k in
    let (b, e2, k2) = bind_ok (guard (not (eqb id current)) cannot_revoke_current_session) _ k1 in
    elim (Bool-cases (is_none session.revoked_at)) [
      | inr f ↦ let same : db ≡ db' = ground arith in subst (Writes db) same still
      | inl f ↦
          still
          ▹ revokes id now "admin_revoked" refl
          ▹ notes
              (admin_event "admin.session_revoked" now admin "session" id request
                (("user_id", user_text) ∷ []))
              (ground arith)
    ]
