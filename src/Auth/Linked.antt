-- ===== src/Auth/Linked.antt =====
-- The writes that each transaction of OAuthService makes to the accounts.
use domains_manager.Base.{
  ℕ, String, List, [], ◌∷◌, Option, some, none, ◌≡◌, refl, subst, arith, inl, inr, Option-cases,
  eqb, none_or, not, false, true, any, ◌||◌, ◌+◌, max, str_eq,
}
use domains_manager.Base.Result.{
  ok, bind_ok, or_raise, guard, username_already_set, username_taken, oauth_identity_not_found,
  oauth_last_login_method, oauth_password_already_set, registration_disabled,
}
use domains_manager.Base.Table.{find}
use domains_manager.Auth.{User, AuthTables}
use domains_manager.Auth.Users.{
  is_user, logged_in, with_password, with_names, is_namesake, complete_username_setup,
  set_last_login, update_password, get_by_username, add_user,
}
use domains_manager.Auth.Service.{
  AuthService, AuthContext, Draws, AuthenticationResult, AuthenticatedUser, create_session,
}
use domains_manager.Auth.Security.{hash_password}
use domains_manager.Auth.Service.Entry.{new_user}
use domains_manager.Auth.Writes.{
  Write, Writes, still, ◌▹◌, adds, sets, opens, revokes_all, notes, append-Writes,
}
use domains_manager.Auth.Parts.{update_user-Write}
use domains_manager.OAuth.{
  IdentityRecord, Intent, login, link, OAuthTables, add_identity, list_identities,
}
use domains_manager.OAuth.Service.{
  oauth_event, require_recent, validate_mutation, set_username_locked, set_password, unlink,
  is_other_way,
}
use domains_manager.OAuth.Callback.{
  ExternalIdentity, identity_of, linked_user, known_user, created_user, free_name, finish_user,
  save_identity, open_session, event_of, finish,
}

rename-Write :
    (id : ℕ) (username normalized : String) (at : ℕ) (db db' : AuthTables)
    → complete_username_setup id username normalized at db ≡ ok db'
    → Write db db'
unfolding complete_username_setup
rename-Write id username normalized at db db' h =
    elim (Option-cases (find (is_namesake id username normalized) db.users)) [
      | inl e ↦
          update_user-Write id (with_names username normalized at) db db' (λ u. refl) (ground arith)
      | inr (u, e) ↦ absurd (ground arith)
    ]

pub set_username-Writes :
    (current : AuthenticatedUser) (display normalized : String) (context : AuthContext) (now : ℕ)
    (user : User) (o o' : OAuthTables)
    → set_username_locked current display normalized context now o ≡ ok (user, o')
    → Writes o.accounts o'.accounts
unfolding set_username_locked
set_username-Writes current display normalized context now user o o' h =
    let (u, e, k) = bind_ok (validate_mutation current now o.accounts) _ h in
    let (a, e1, k1) = bind_ok (guard u.username_setup_required username_already_set) _ k in
    let (b, e2, k2) =
      bind_ok
        (guard (none_or (get_by_username normalized o.accounts) (λ v. eqb v.id u.id))
          username_taken)
        _ k1 in
    let (db1, e3, k3) =
      bind_ok (complete_username_setup u.id display normalized now o.accounts) _ k2 in
    still
    ▹ rename-Write u.id display normalized now o.accounts db1 e3
    ▹ notes (oauth_event "user.username_set" now u.id context.request_id none []) (ground arith)

pub unlink-Writes :
    (providers : List String) (key : String) (current : AuthenticatedUser) (context : AuthContext)
    (now : ℕ) (o o' : OAuthTables)
    → unlink providers key current context now o ≡ ok o'
    → Writes o.accounts o'.accounts
unfolding unlink
unlink-Writes providers key current context now o o' h =
    let (a, e, k) = bind_ok (require_recent current now) _ h in
    let (user, e1, k1) = bind_ok (validate_mutation current now o.accounts) _ k in
    let (target, e2, k2) =
      bind_ok
        (or_raise (find (λ i. str_eq i.provider_key key) (list_identities user.id o))
          oauth_identity_not_found)
        _ k1 in
    let (b, e3, k3) =
      bind_ok
        (guard
          (user.password_auth_enabled
            || any (is_other_way providers key) (list_identities user.id o))
          oauth_last_login_method)
        _ k2 in
    still
    ▹ revokes_all user.id now "oauth_unlinked" (some current.session.id) refl
    ▹ notes
        (oauth_event "oauth.unlinked" now user.id context.request_id context.ip_hash
          (("provider", key) ∷ []))
        (ground arith)

open_session-Writes :
    (s : AuthService) (x : Draws) (user : User) (intent : Intent) (context : AuthContext) (now : ℕ)
    (result : Option AuthenticationResult) (db db' : AuthTables)
    → open_session s x user intent context now db ≡ ok (result, db')
    → Writes db db'
unfolding open_session
open_session-Writes s x user (link u i) context now result db db' h =
    let same : db ≡ db' = ground arith in subst (Writes db) same still
open_session-Writes s x user login context now result db db' h =
    let (db1, e, k) = bind_ok (set_last_login user.id now db) _ h in
    let ((r, db2), e1, k1) =
      bind_ok (create_session s x (logged_in now user) context now db1) _ k in
    let same : db2 ≡ db' = ground arith in
    subst (Writes db) same (
      still
      ▹ update_user-Write user.id (logged_in now) db db1 (λ u. refl) e
      ▹ opens s x (logged_in now user) context now r e1)

created_user-Writes :
    (s : AuthService) (x : Draws) (fallback secret : String) (e : ExternalIdentity) (now : ℕ)
    (user : User) (o o' : OAuthTables)
    → created_user s x fallback secret e now o ≡ ok (user, o')
    → Writes o.accounts o'.accounts
unfolding created_user
created_user-Writes s x fallback secret e now user o o' h =
    let (a, e0, k0) = bind_ok (guard s.registration_enabled registration_disabled) _ h in
    let (hash, e1, k1) = bind_ok (hash_password s.crypto x.salt secret) _ k0 in
    let name = free_name s e fallback o.accounts in
    let new = record (new_user x name (s.crypto.casefold name) hash none none "user" now) {
      password_auth_enabled = false;
      username_setup_required = true;
    } in
    let (db1, e2, k2) = bind_ok (add_user new o.accounts) _ k1 in
    let same : db1 ≡ o'.accounts = ground arith in
    subst (Writes o.accounts) same (still ▹ adds new e2)

finish_user-Writes :
    (s : AuthService) (x : Draws) (fallback secret : String) (read : Option IdentityRecord)
    (intent : Intent) (e : ExternalIdentity) (now : ℕ) (found : User × Option IdentityRecord)
    (o o' : OAuthTables)
    → finish_user s x fallback secret read intent e now o ≡ ok (found, o')
    → Writes o.accounts o'.accounts
unfolding finish_user
finish_user-Writes s x fallback secret read (link u i) e now found o o' h =
    let (f, e1, k1) = bind_ok (linked_user u i e now o) _ h in
    let same : o.accounts ≡ o'.accounts = ground arith in subst (Writes o.accounts) same still
finish_user-Writes s x fallback secret (some r) login e now found o o' h =
    let (f, e1, k1) = bind_ok (known_user r e o) _ h in
    let same : o.accounts ≡ o'.accounts = ground arith in subst (Writes o.accounts) same still
finish_user-Writes s x fallback secret none login e now found o o' h =
    let ((u, o1), e1, k1) = bind_ok (created_user s x fallback secret e now o) _ h in
    let same : o1.accounts ≡ o'.accounts = ground arith in
    subst (Writes o.accounts) same (created_user-Writes s x fallback secret e now u o o1 e1)

save_identity-accounts :
    (stored : Option IdentityRecord) (i : IdentityRecord) (o o' : OAuthTables)
    → save_identity stored i o ≡ ok o'
    → o.accounts ≡ o'.accounts
unfolding add_identity
save_identity-accounts (some r) i o o' h = ground arith
save_identity-accounts none i o o' h = ground arith

pub finish-Writes :
    (s : AuthService) (x : Draws) (fresh : ℕ) (fallback secret : String)
    (read : Option IdentityRecord) (intent : Intent) (e : ExternalIdentity) (context : AuthContext)
    (now : ℕ) (result : Option AuthenticationResult) (o o' : OAuthTables)
    → finish s x fresh fallback secret read intent e context now o ≡ ok (result, o')
    → Writes o.accounts o'.accounts
unfolding finish
finish-Writes s x fresh fallback secret read intent e context now result o o' h =
    let (((user, stored), o1), e1, k1) =
      bind_ok (finish_user s x fallback secret read intent e now o) _ h in
    let (o2, e2, k2) =
      bind_ok (save_identity stored (identity_of fresh stored user intent e now) o1) _ k1 in
    let ((r, accounts), e3, k3) =
      bind_ok (open_session s x user intent context now o2.accounts) _ k2 in
    let first = finish_user-Writes s x fallback secret read intent e now (user, stored) o o1 e1 in
    let same =
      save_identity-accounts stored (identity_of fresh stored user intent e now) o1 o2 e2 in
    let rest = open_session-Writes s x user intent context now r o2.accounts accounts e3 in
    append-Writes (subst (Writes o.accounts) same first) rest
    ▹ notes
        (oauth_event (event_of intent) now user.id context.request_id context.ip_hash
          (("provider", e.provider_key) ∷ []))
        (ground arith)

pub set_password-Writes :
    (current : AuthenticatedUser) (hash : String) (context : AuthContext) (clock : ℕ)
    (o o' : OAuthTables)
    → set_password current hash context clock o ≡ ok o'
    → Writes o.accounts o'.accounts
unfolding set_password
set_password-Writes current hash context clock o o' h =
    let (a, e, k) = bind_ok (require_recent current clock) _ h in
    let (user, e1, k1) = bind_ok (validate_mutation current clock o.accounts) _ k in
    let (b, e2, k2) =
      bind_ok (guard (not user.password_auth_enabled) oauth_password_already_set) _ k1 in
    let now = max clock (user.password_changed_at + 1) in
    let (db1, e3, k3) = bind_ok (update_password user.id hash now o.accounts) _ k2 in
    still
    ▹ update_user-Write user.id (with_password hash now) o.accounts db1 (λ u. refl) e3
    ▹ sets (is_user user.id) (λ u. record u { password_auth_enabled = true }) (λ u. refl) refl
    ▹ revokes_all user.id now "password_set" (some current.session.id) refl
    ▹ notes (oauth_event "user.password_set" now user.id context.request_id none []) (ground arith)
