-- ===== src/Auth/Password.antt =====
-- The changes that end the other sessions of a user: a new password, and a ban.
use domains_manager.Base.{
  ℕ, ◌+◌, String, true, false, Option, some, ◌≡◌, ◌≢◌, refl, subst, eqb, arith, inl, inr, is_none,
  Bool-cases, eqb_refl, str_eq, max, ◌⊎◌, ◌<◌,
}
use domains_manager.Base.Table.{update, count, find-update, find_sound}
use domains_manager.Base.Result.{ok, bind_ok, or_raise, guard, invalid_token, record_not_found}
use domains_manager.Auth.{Session, User, AuthTables}
use domains_manager.Auth.Users.{is_user, with_password, get_by_id, update_password, update_user}
use domains_manager.Auth.Sessions.{
  is_session, get_session, closed, is_open_of, revoke_user_sessions,
}
use domains_manager.Auth.Service.{AuthContext, AuthenticatedUser, ensure_user_active}
use domains_manager.Auth.Service.Changes.{
  change_password_locked, ban_user, close_sessions, is_bannable, is_unrevoked_by,
}
use domains_manager.Auth.Forever.{IsRevoked}
use domains_manager.Auth.Endings.{session_named}

user_named : (id : ℕ) (db : AuthTables) (user : User) → get_by_id id db ≡ some user → user.id ≡ id
unfolding get_by_id
user_named id db user f = let named = find_sound (is_user id) db.users f in ground arith

-- What a change of the password leaves.
change_password_writes :
    (current : AuthenticatedUser) (hash : String) (context : AuthContext) (clock : ℕ)
    (db db' : AuthTables) (user : User)
    → get_by_id current.user.id db ≡ some user
    → change_password_locked current hash context clock db ≡ ok db'
    → let now = max clock (user.password_changed_at + 1) in
      (db'.users ≡ update (is_user user.id) (with_password hash now) db.users)
      × (db'.sessions
          ≡ update
              (is_open_of user.id (some current.session.id))
              (closed now "password_changed")
              db.sessions)
unfolding change_password_locked update_user revoke_user_sessions
change_password_writes current hash context clock db db' user known h =
    let (u, e, k) = bind_ok (or_raise (get_by_id current.user.id db) invalid_token) _ h in
    let same : u ≡ user = ground arith in
    let (a, e1, k1) =
      bind_ok (guard (str_eq u.password_hash current.user.password_hash) invalid_token) _ k in
    let (b, e2, k2) = bind_ok (ensure_user_active u) _ k1 in
    let now = max clock (u.password_changed_at + 1) in
    let (db1, e3, k3) = bind_ok (update_password u.id hash now db) _ k2 in
    subst
      (λ (v : User).
        let now = max clock (v.password_changed_at + 1) in
        (db'.users ≡ update (is_user v.id) (with_password hash now) db.users)
        × (db'.sessions
            ≡ update (is_open_of v.id (some current.session.id)) (closed now "password_changed")
                db.sessions))
      same (ground arith, ground arith)

-- After a change of the password the user has the new hash, with a time later than the one before
-- it, even when the clock stood still or stepped back; the session that changed it is as it was,
-- and every other session of the user is revoked.
pub change_password_ends :
    (current : AuthenticatedUser) (hash : String) (context : AuthContext) (clock : ℕ)
    (db db' : AuthTables) (user : User) (id : ℕ) (session : Session)
    → get_by_id current.user.id db ≡ some user
    → get_session id db ≡ some session
    → session.user_id ≡ user.id
    → change_password_locked current hash context clock db ≡ ok db'
    → ((u : User) × (get_by_id current.user.id db' ≡ some u)
        × (u.password_hash ≡ hash)
        × (user.password_changed_at < u.password_changed_at))
      × (((id ≡ current.session.id) × (get_session id db' ≡ some session))
          ⊎ ((id ≢ current.session.id) × IsRevoked id db'))
unfolding get_by_id get_session
change_password_ends current hash context clock db db' user id session e f own h =
    let (w, v) = change_password_writes current hash context clock db db' user e h in
    let now = max clock (user.password_changed_at + 1) in
    let named = user_named current.user.id db user e in
    let it = session_named id db session f in
    let q = is_open_of user.id (some current.session.id) in
    let users =
      find-update (is_user current.user.id) (is_user user.id) (with_password hash now) db.users
        (λ u z. refl) in
    let rows =
      find-update (is_session id) q (closed now "password_changed") db.sessions (λ s z. refl) in
    let mine : eqb user.id user.id ≡ true = eqb_refl user.id in
    (
      (with_password hash now user, rw (w, users, e, mine) refl, refl, ground arith),
      elim (Bool-cases (eqb id current.session.id)) [
        | inl g ↦
            let miss : q session ≡ false = ground arith in
            inl (ground arith, rw (v, rows, f, miss) refl)
        | inr g ↦ inr (
          ground arith,
          elim (Bool-cases (is_none session.revoked_at)) [
            | inl n ↦
                let hit : q session ≡ true = ground arith in
                (closed now "password_changed" session, rw (v, rows, f, hit) refl, refl)
            | inr n ↦
                let miss : q session ≡ false = ground arith in
                (session, rw (v, rows, f, miss) refl, ground arith)
          ],
        )
      ],
    )

-- A ban of a user who was neither banned nor inactive revokes every session of the user.
pub ban_revokes :
    (id admin : ℕ) (request : Option String) (reason : String) (now : ℕ) (db db' : AuthTables)
    (sid : ℕ) (session : Session)
    → count (is_bannable id) db.users ≡ 1
    → get_session sid db ≡ some session
    → session.user_id ≡ id
    → ban_user id admin request reason now db ≡ ok db'
    → IsRevoked sid db'
unfolding ban_user close_sessions get_session
ban_revokes id admin request reason now db db' sid session one e own h =
    let (user, f, k) = bind_ok (or_raise (get_by_id id db) record_not_found) _ h in
    let rows =
      find-update (is_session sid) (is_unrevoked_by id) (closed now "admin_banned") db.sessions
        (λ s z. refl) in
    let written : db'.sessions
        ≡ update (is_unrevoked_by id) (closed now "admin_banned") db.sessions =
      ground arith in
    elim (Bool-cases (is_none session.revoked_at)) [
      | inl n ↦
          let hit : is_unrevoked_by id session ≡ true = ground arith in
          (closed now "admin_banned" session, rw (written, rows, e, hit) refl, refl)
      | inr n ↦
          let miss : is_unrevoked_by id session ≡ false = ground arith in
          (session, rw (written, rows, e, miss) refl, ground arith)
    ]
