-- ===== src/OAuth/Moves.antt =====
-- An external identity stays with its user.
use domains_manager.Base.{
  ℕ, Bool, true, false, ◌&&◌, Option, none, some, List, [], ◌∷◌, ◌≡◌, str_eq, eqb, arith, inl, inr,
  String, Option-cases, eqb_refl, eq_iff, ◌⊎◌, is_none, ltb, any, not, subst, sym, ap,
}
use domains_manager.Base.Table.{find, update, find_sound, find_other}
use domains_manager.Base.Result.{
  Result, ok, err, bind_ok, or_raise, guard, oauth_session_changed, oauth_identity_in_use,
  oauth_provider_already_linked, oauth_identity_changed, registration_disabled,
}
use domains_manager.OAuth.{
  IdentityRecord, OAuthTables, get_identity, Intent, login, link, list_identities, is_identity,
  add_identity, identity_conflicts,
}
use domains_manager.Auth.{User}
use domains_manager.Auth.Service.{
  AuthService, AuthContext, AuthenticationResult, Draws, ensure_user_active,
}
use domains_manager.Auth.Service.Entry.{new_user}
use domains_manager.Auth.Security.{hash_password}
use domains_manager.Auth.Users.{get_by_id, add_user}
use domains_manager.Auth.Sessions.{get_session}
use domains_manager.OAuth.Callback.{
  ExternalIdentity, finish_user, linked_user, known_user, created_user, free_name, finish,
  identity_of, save_identity, open_session,
}

overwritten :
    (p q : IdentityRecord → Bool) (new : IdentityRecord) (is : List IdentityRecord)
    {i : IdentityRecord}
    → find p is ≡ some i
    → q i ≡ true
    → p new ≡ true
    → find p (update q (λ x. new) is) ≡ some new
unfolding find update
overwritten p q new [] e m n = absurd (ground arith)
overwritten p q new (y ∷ is) {i} e m n = ground (arith, overwritten p q new is {i = i})

linked_user-stored :
    (u sid : ℕ) (e : ExternalIdentity) (now : ℕ) (db : OAuthTables) (user : User)
    (stored : Option IdentityRecord) (i : IdentityRecord)
    → linked_user u sid e now db ≡ ok (user, stored)
    → get_identity e.provider_key e.subject db ≡ some i
    → (stored ≡ some i) × (i.user_id ≡ user.id)
unfolding linked_user
linked_user-stored u sid e now db user stored i h f =
    let (w, a, k) = bind_ok (or_raise (get_by_id u db.accounts) oauth_session_changed) _ h in
    let (session, a1, k1) =
      bind_ok (or_raise (get_session sid db.accounts) oauth_session_changed) _ k in
    let (b, a2, k2) = bind_ok (guard (eqb session.user_id w.id) oauth_session_changed) _ k1 in
    let (c, a3, k3) = bind_ok (guard (is_none session.revoked_at) oauth_session_changed) _ k2 in
    let (d, a4, k4) =
      bind_ok (guard (ltb now session.absolute_expires_at) oauth_session_changed) _ k3 in
    let (g, a5, k5) = bind_ok (ensure_user_active w) _ k4 in
    let (j, a6, k6) =
      bind_ok
        (guard
          (elim (get_identity e.provider_key e.subject db) [
            | none ↦ true
            | some i ↦ eqb i.user_id w.id
          ])
          oauth_identity_in_use)
        _ k5 in
    let (m, a7, k7) =
      bind_ok
        (guard
          (not (
            any
              (λ i.
                str_eq i.provider_key e.provider_key && not (str_eq i.provider_subject e.subject))
              (list_identities w.id db)))
          oauth_provider_already_linked)
        _ k6 in
    let own : eqb i.user_id w.id ≡ true = ground arith in
    let same : w ≡ user = ground arith in
    (ground arith, subst (λ (v : User). i.user_id ≡ v.id) same (ground arith))

known_user-stored :
    (r : IdentityRecord) (e : ExternalIdentity) (db : OAuthTables) (user : User)
    (stored : Option IdentityRecord) (i : IdentityRecord)
    → known_user r e db ≡ ok (user, stored)
    → get_identity e.provider_key e.subject db ≡ some i
    → (stored ≡ some i) × (i.user_id ≡ user.id)
unfolding known_user
known_user-stored r e db user stored i h f =
    let (w, a, k) =
      bind_ok (or_raise (get_by_id r.user_id db.accounts) oauth_identity_changed) _ h in
    let (t, a1, k1) =
      bind_ok (or_raise (get_identity e.provider_key e.subject db) oauth_identity_changed) _ k in
    let (b, a2, k2) = bind_ok (guard (eqb t.user_id w.id) oauth_identity_changed) _ k1 in
    let (g, a3, k3) = bind_ok (ensure_user_active w) _ k2 in
    let it : t ≡ i = ground arith in
    let same : w ≡ user = ground arith in
    let own : t.user_id ≡ w.id = ground arith in
    (
      ground arith,
      subst (λ (v : User). i.user_id ≡ v.id) same
          (subst (λ (v : IdentityRecord). v.user_id ≡ w.id) it own),
    )

created_user-identities :
    (s : AuthService) (x : Draws) (fallback secret : String) (e : ExternalIdentity) (now : ℕ)
    (db db1 : OAuthTables) (user : User)
    → created_user s x fallback secret e now db ≡ ok (user, db1)
    → db1.identities ≡ db.identities
unfolding created_user
created_user-identities s x fallback secret e now db db1 user h =
    let (a, e1, k) = bind_ok (guard s.registration_enabled registration_disabled) _ h in
    let (hash, e2, k1) = bind_ok (hash_password s.crypto x.salt secret) _ k in
    let name = free_name s e fallback db.accounts in
    let new : User = record (new_user x name (s.crypto.casefold name) hash none none "user" now) {
      password_auth_enabled = false;
      username_setup_required = true;
    } in
    let (db2, e3, k2) = bind_ok (add_user new db.accounts) _ k1 in ground arith

-- A callback that returned for an identity that is stored found the identity with its user, or
-- found none to write over.
finish_user-stored :
    (s : AuthService) (x : Draws) (fallback secret : String) (read : Option IdentityRecord)
    (intent : Intent) (e : ExternalIdentity) (now : ℕ) (db db1 : OAuthTables) (user : User)
    (stored : Option IdentityRecord) (i : IdentityRecord)
    → finish_user s x fallback secret read intent e now db ≡ ok ((user, stored), db1)
    → get_identity e.provider_key e.subject db ≡ some i
    → (db1.identities ≡ db.identities)
      × ((stored ≡ none) ⊎ ((stored ≡ some i) × (i.user_id ≡ user.id)))
unfolding finish_user
finish_user-stored s x fallback secret read (link u sid) e now db db1 user stored i h f =
    let ((w, t), a, k) = bind_ok (linked_user u sid e now db) _ h in
    let (m, n) = linked_user-stored u sid e now db w t i a f in
    let same : w ≡ user = ground arith in
    (ground arith, inr (ground arith, subst (λ (v : User). i.user_id ≡ v.id) same n))
finish_user-stored s x fallback secret (some r) login e now db db1 user stored i h f =
    let ((w, t), a, k) = bind_ok (known_user r e db) _ h in
    let (m, n) = known_user-stored r e db w t i a f in
    let same : w ≡ user = ground arith in
    (ground arith, inr (ground arith, subst (λ (v : User). i.user_id ≡ v.id) same n))
finish_user-stored s x fallback secret none login e now db db1 user stored i h f =
    let ((w, db2), a, k) = bind_ok (created_user s x fallback secret e now db) _ h in
    let kept = created_user-identities s x fallback secret e now db db2 w a in
    (ground arith, inl (ground arith))

save_identity-stored :
    (fresh : ℕ) (user : User) (stored : Option IdentityRecord) (intent : Intent)
    (e : ExternalIdentity) (now : ℕ) (db1 db2 : OAuthTables) (i : IdentityRecord)
    → get_identity e.provider_key e.subject db1 ≡ some i
    → (stored ≡ none) ⊎ ((stored ≡ some i) × (i.user_id ≡ user.id))
    → save_identity stored (identity_of fresh stored user intent e now) db1 ≡ ok db2
    → (j : IdentityRecord) × (get_identity e.provider_key e.subject db2 ≡ some j)
      × (j.user_id ≡ i.user_id)
unfolding get_identity add_identity
save_identity-stored fresh user none intent e now db1 db2 i f c h =
    let new = identity_of fresh none user intent e now in
    let named = find_sound (is_identity e.provider_key e.subject) db1.identities f in
    let clash =
      find_other (is_identity e.provider_key e.subject) (identity_conflicts new) db1.identities f
        (ground arith) in
    elim (Option-cases (find (identity_conflicts new) db1.identities)) [
      | inl g ↦ absurd (clash g)
      | inr (y, g) ↦ absurd (ground arith)
    ]
save_identity-stored fresh user (some t) intent e now db1 db2 i f (inl c) h = absurd (ground arith)
save_identity-stored fresh user (some t) intent e now db1 db2 i f (inr (c, own)) h =
    let new = identity_of fresh (some t) user intent e now in
    let same : t ≡ i = ground arith in
    let mine : eqb i.id new.id ≡ true =
      subst (λ (v : IdentityRecord). eqb i.id v.id ≡ true) (sym same) (eqb_refl i.id) in
    let keys : is_identity e.provider_key e.subject new ≡ true =
      ground (arith, eq_iff e.provider_key e.provider_key, eq_iff e.subject e.subject) in
    let there =
      overwritten (is_identity e.provider_key e.subject) (λ x. eqb x.id new.id) new db1.identities f
        mine keys in
    let written : db2.identities ≡ update (λ x. eqb x.id new.id) (λ x. new) db1.identities =
      ground arith in
    (new, rw (written) there, sym own)

identities_of : {T : Type 0} → OAuthTables → Result (T × OAuthTables) → List IdentityRecord
identities_of db (ok (t, db')) = db'.identities
identities_of db (err cause) = db.identities

-- The parts of a callback that returned.
finish_parts :
    (s : AuthService) (x : Draws) (fresh : ℕ) (fallback secret : String)
    (read : Option IdentityRecord) (intent : Intent) (e : ExternalIdentity) (context : AuthContext)
    (now : ℕ) (db db' : OAuthTables) (result : Option AuthenticationResult)
    → finish s x fresh fallback secret read intent e context now db ≡ ok (result, db')
    → (user : User) × (stored : Option IdentityRecord) × (db1 : OAuthTables) × (db2 : OAuthTables)
      × (finish_user s x fallback secret read intent e now db ≡ ok ((user, stored), db1))
      × (save_identity stored (identity_of fresh stored user intent e now) db1 ≡ ok db2)
      × (db'.identities ≡ db2.identities)
unfolding finish identities_of
finish_parts s x fresh fallback secret read intent e context now db db' result h =
    let (((user, stored), db1), a, k) =
      bind_ok (finish_user s x fallback secret read intent e now db) _ h in
    let (db2, a1, k1) =
      bind_ok (save_identity stored (identity_of fresh stored user intent e now) db1) _ k in
    let ((r, accounts), a2, k2) =
      bind_ok (open_session s x user intent context now db2.accounts) _ k1 in
    (user, stored, db1, db2, a, a1, ap (identities_of db2) (sym k2))

-- An external identity never moves to another user: after a callback for an identity that is
-- stored returned, for a login or a link and whatever it had read before the lock, the identity is
-- stored, for the same user as before.
pub identity_stays :
    (s : AuthService) (x : Draws) (fresh : ℕ) (fallback secret : String)
    (read : Option IdentityRecord) (intent : Intent) (e : ExternalIdentity) (context : AuthContext)
    (now : ℕ) (db db' : OAuthTables) (result : Option AuthenticationResult) (i : IdentityRecord)
    → get_identity e.provider_key e.subject db ≡ some i
    → finish s x fresh fallback secret read intent e context now db ≡ ok (result, db')
    → (j : IdentityRecord) × (get_identity e.provider_key e.subject db' ≡ some j)
      × (j.user_id ≡ i.user_id)
unfolding get_identity
identity_stays s x fresh fallback secret read intent e context now db db' result i f h =
    let (user, stored, db1, db2, a, b, last) =
      finish_parts s x fresh fallback secret read intent e context now db db' result h in
    let (same, c) =
      finish_user-stored s x fallback secret read intent e now db db1 user stored i a f in
    let before : get_identity e.provider_key e.subject db1 ≡ some i = rw (same) f in
    let (j, there, own) =
      save_identity-stored fresh user stored intent e now db1 db2 i before c b in
    (j, rw (last) there, own)
