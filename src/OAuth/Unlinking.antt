-- ===== src/OAuth/Unlinking.antt =====
-- Unlinking an identity leaves the user a way to sign in.
use domains_manager.Base.{
  ℕ, ◌≤◌, Bool, true, false, ◌&&◌, ◌||◌, not, none, some, List, [], ◌∷◌, ◌≡◌, ◌≢◌, ◌⊎◌, refl, sym,
  eqb, str_eq, arith, inl, inr, String, any, Option-cases, Bool-cases, is_none, ltb, eqb_refl, ◌∙◌,
}
use domains_manager.Base.Table.{find, select, count, find_other, count_of_find}
use domains_manager.Base.Result.{
  ok, bind_ok, or_raise, guard, oauth_identity_not_found, oauth_last_login_method,
  oauth_session_changed,
}
use domains_manager.Auth.{User}
use domains_manager.Auth.Users.{get_by_id, is_user}
use domains_manager.Auth.Sessions.{get_session, revoke_user_sessions}
use domains_manager.Auth.Service.{AuthContext, AuthenticatedUser, ensure_user_active}
use domains_manager.Auth.Returns.{or_raise_ok}
use domains_manager.OAuth.{IdentityRecord, OAuthTables, list_identities}
use domains_manager.OAuth.Service.{unlink, require_recent, validate_mutation, is_other_way}

module _ {R : Type 0} where
  select_all : (q : R → Bool) (rs : List R) → count q rs ≡ 0 → select (λ y. not (q y)) rs ≡ rs
  unfolding select count
  select_all q [] h = refl
  select_all q (y ∷ rs) h = ground (arith, select_all q rs)

  -- A row beside the one row that is deleted stays.
  kept_beside :
      (p r q : R → Bool) (rs : List R) {t i : R}
      → ((y : R) → p y ≡ true → r y ≡ false)
      → count q rs ≤ 1
      → find r rs ≡ some t
      → q t ≡ true
      → find p rs ≡ some i
      → find p (select (λ y. not (q y)) rs) ≡ some i
  unfolding find select count
  kept_beside p r q [] off one e m f = absurd (ground arith)
  kept_beside p r q (y ∷ rs) {t} {i} off one e m f = elim (Bool-cases (p y)) [
    | inl g ↦
        let rest : find r rs ≡ some t = ground (arith, off y) in
        elim (Bool-cases (q y)) [
          | inr n ↦ ground arith
          | inl n ↦
              let there = find_other r q rs rest m in
              elim (Option-cases (find q rs)) [
                | inl z ↦ absurd (there z)
                | inr (x, z) ↦ let many = count_of_find q rs z in absurd (ground arith)
              ]
        ]
    | inr g ↦ elim (Bool-cases (r y)) [
      | inl n ↦
          let same : y ≡ t = ground arith in
          let hit : q y ≡ true = rw (same) m in
          let zero : count q rs ≡ 0 = ground arith in ground (arith, select_all q rs zero)
      | inr n ↦
          let deep =
            kept_beside p r q rs {t = t} {i = i} off (ground arith) (ground arith) m
              (ground arith) in
          ground arith
    ]
  ]

  any-select :
      (p q : R → Bool) (rs : List R) → any p (select q rs) ≡ true → find (λ y. q y && p y) rs ≢ none
  unfolding find select
  any-select p q [] h e = absurd (ground arith)
  any-select p q (y ∷ rs) h e = ground (arith, any-select p q rs)

  find-select : (p q : R → Bool) (rs : List R) → find p (select q rs) ≡ find (λ y. q y && p y) rs
  unfolding find select
  find-select p q [] = refl
  find-select p q (y ∷ rs) = ground (arith, find-select p q rs)

validate_mutation-found :
    (current : AuthenticatedUser) (now : ℕ) (db : OAuthTables) (user : User)
    → validate_mutation current now db.accounts ≡ ok user
    → get_by_id current.user.id db.accounts ≡ some user
unfolding validate_mutation
validate_mutation-found current now db user h =
    let (u, e, k) =
      bind_ok (or_raise (get_by_id current.user.id db.accounts) oauth_session_changed) _ h in
    let (session, e1, k1) =
      bind_ok (or_raise (get_session current.session.id db.accounts) oauth_session_changed) _ k in
    let (a, e2, k2) =
      bind_ok (guard (eqb session.user_id current.user.id) oauth_session_changed) _ k1 in
    let (b, e3, k3) = bind_ok (guard (is_none session.revoked_at) oauth_session_changed) _ k2 in
    let (c, e4, k4) =
      bind_ok (guard (ltb now session.absolute_expires_at) oauth_session_changed) _ k3 in
    let (d, e5, k5) =
      bind_ok
        (guard (eqb u.password_changed_at current.user.password_changed_at) oauth_session_changed) _
        k4 in
    let (f, e6, k6) = bind_ok (ensure_user_active u) _ k5 in
    let found = or_raise_ok (get_by_id current.user.id db.accounts) _ e in ground arith

-- Where the identifiers of identities are unique, after an unlinking that returned the user has a
-- password to sign in with, or an identity that is linked at another provider that is configured.
pub unlink_keeps_way :
    (providers : List String) (key : String) (current : AuthenticatedUser) (context : AuthContext)
    (now : ℕ) (db db' : OAuthTables)
    → ((id : ℕ) → count (λ (i : IdentityRecord). eqb i.id id) db.identities ≤ 1)
    → unlink providers key current context now db ≡ ok db'
    → (user : User) × (get_by_id current.user.id db'.accounts ≡ some user)
      × ((user.password_auth_enabled ≡ true)
          ⊎ ((i : IdentityRecord) × (find
                  (λ i. eqb i.user_id user.id && is_other_way providers key i)
                  db'.identities
                ≡ some i)))
unfolding unlink revoke_user_sessions get_by_id
unlink_keeps_way providers key current context now db db' unique h =
    let (a, e, k) = bind_ok (require_recent current now) _ h in
    let (user, e1, k1) = bind_ok (validate_mutation current now db.accounts) _ k in
    let mine = list_identities user.id db in
    let (target, e2, k2) =
      bind_ok (or_raise (find (λ i. str_eq i.provider_key key) mine) oauth_identity_not_found) _
        k1 in
    let (b, e3, k3) =
      bind_ok
        (guard (user.password_auth_enabled || any (is_other_way providers key) mine)
          oauth_last_login_method)
        _ k2 in
    let known : find (is_user current.user.id) db.accounts.users ≡ some user =
      validate_mutation-found current now db user e1 in
    let same_users : db'.accounts.users ≡ db.accounts.users = ground arith in
    let rows : db'.identities ≡ select (λ i. not (eqb i.id target.id)) db.identities =
      ground arith in
    let first = or_raise_ok (find (λ i. str_eq i.provider_key key) mine) _ e2 in
    let p = λ (i : IdentityRecord). eqb i.user_id user.id && is_other_way providers key i in
    let r = λ (i : IdentityRecord). eqb i.user_id user.id && str_eq i.provider_key key in
    let it : find r db.identities ≡ some target =
      sym (
        find-select (λ (i : IdentityRecord). str_eq i.provider_key key)
          (λ (i : IdentityRecord). eqb i.user_id user.id) db.identities)
      ∙ first in
    (
      user,
      rw (same_users) known,
      elim (Bool-cases user.password_auth_enabled) [
        | inl q ↦ inl q
        | inr q ↦
            let other : any (is_other_way providers key) mine ≡ true = ground arith in
            let there =
              any-select (is_other_way providers key)
                (λ (i : IdentityRecord). eqb i.user_id user.id) db.identities other in
            elim (Option-cases (find p db.identities)) [
              | inl z ↦ absurd (there z)
              | inr (i, z) ↦ inr (
                i,
                rw (rows) (
                    kept_beside p r (λ (y : IdentityRecord). eqb y.id target.id) db.identities
                      (λ y w. ground arith) (unique target.id) it (eqb_refl target.id) z),
              )
            ]
      ],
    )
