-- ===== src/Auth/Names.antt =====
-- The first administrator is created once.
use domains_manager.Base.{
  ℕ, Bool, true, false, none, [], ◌∷◌, ◌++◌, List, ◌≡◌, refl, subst, sym, eqb, str_eq, arith, inl,
  inr, Option-cases, length,
}
use domains_manager.Base.Kept.{IsKept, IsKept-append, find-append_new}
use domains_manager.Base.Table.{find}
use domains_manager.Base.Result.{ok}
use domains_manager.Auth.{User, SystemState, AuthTables}
use domains_manager.Auth.Users.{user_conflicts, add_user, try_claim}
use domains_manager.Auth.Sessions.{revoke_session, revoke_user_sessions}
use domains_manager.Auth.Service.Entry.{bootstrap_locked}
use domains_manager.Auth.Service.Changes.{close_sessions}
use domains_manager.Auth.Steps.{Reach}
use domains_manager.Auth.Sequences.{reach-Good}
use domains_manager.Auth.Forever.{create_session_adds, exchange_writes}
use domains_manager.Auth.Writes.{
  Write, adds, sets, opens, exchanges, revokes, revokes_all, closes, notes, claims,
}

abbrev is_key : SystemState → Bool
is_key s = str_eq s.key "bootstrap_admin"

abbrev IsClaimed : AuthTables → Type 0
IsClaimed db = IsKept is_key (λ s. Unit {0}) db.states

write-IsClaimed : (db db' : AuthTables) → Write db db' → IsClaimed db → IsClaimed db'
unfolding add_user revoke_session revoke_user_sessions close_sessions try_claim
write-IsClaimed db db' (adds user e) h = subst (IsKept is_key (λ s. Unit {0})) (ground arith) h
write-IsClaimed db db' (sets q f a e) h = rw (e) h
write-IsClaimed db db' (opens s x user context now r e) h =
    subst (IsKept is_key (λ s. Unit {0}))
      (sym (create_session_adds s x user context now db db' r e).3) h
write-IsClaimed db db' (exchanges s x token session user context now r f g u e) h =
    subst (IsKept is_key (λ s. Unit {0}))
      (sym (exchange_writes s x token session user context now db db' r e).3) h
write-IsClaimed db db' (revokes i at reason e) h = rw (e) h
write-IsClaimed db db' (revokes_all user at reason except e) h = rw (e) h
write-IsClaimed db db' (closes user at e) h = rw (e) h
write-IsClaimed db db' (notes event e) h = rw (e) h
write-IsClaimed db db' (claims key at e) h =
    elim (Option-cases (find (λ (s : SystemState). str_eq s.key key) db.states)) [
      | inl f ↦ subst (IsKept is_key (λ s. Unit {0})) (ground arith) (
          IsKept-append is_key (λ s. Unit {0}) db.states
            (record { key = key; created_at = at } ∷ []) h)
      | inr (s, f) ↦ subst (IsKept is_key (λ s. Unit {0})) (ground arith) h
    ]

claimed-refuses :
    (user : User) (now : ℕ) (db : AuthTables)
    → IsClaimed db
    → bootstrap_locked user now db ≡ (false, db)
unfolding bootstrap_locked try_claim
claimed-refuses user now db (s, e, u) = rw (bootstrap_locked, try_claim, e) refl

empty_of_length : (us : List User) → eqb (length us) 0 ≡ true → us ≡ []
empty_of_length [] h = refl
empty_of_length (u ∷ us) h = absurd (ground arith)

abbrev claim_row : ℕ → SystemState
claim_row now = record { key = "bootstrap_admin"; created_at = now }

-- What a bootstrap that returned true found and wrote.
bootstrap_locked-true :
    (user : User) (now : ℕ) (db : AuthTables)
    → (bootstrap_locked user now db).0 ≡ true
    → (db.users ≡ [])
      × (find is_key db.states ≡ none)
      × ((bootstrap_locked user now db).1.users ≡ user ∷ [])
      × ((bootstrap_locked user now db).1.states ≡ db.states ++ (claim_row now ∷ []))
unfolding bootstrap_locked try_claim add_user find
bootstrap_locked-true user now db h = elim (Option-cases (find is_key db.states)) [
  | inr (s, e) ↦ absurd (ground arith)
  | inl e ↦
      let zero : eqb (length db.users) 0 ≡ true = ground arith in
      let empty = empty_of_length db.users zero in
      let claims_it : try_claim "bootstrap_admin" now db
          ≡ (true, record db { states = db.states ++ (claim_row now ∷ []) }) =
        rw (e, try_claim) refl in
      let adds_it : add_user user (record db { states = db.states ++ (claim_row now ∷ []) })
          ≡ ok (record db {
            users = db.users ++ (user ∷ []);
            states = db.states ++ (claim_row now ∷ []);
          }) =
        let free : find (user_conflicts user) db.users ≡ none = rw (empty) refl in
        rw (add_user, free) refl in
      (empty, e, ground (arith, adds_it, claims_it), ground (arith, adds_it, claims_it))
]

-- The first administrator is created once: it is created where there was no user, and, whatever
-- transactions of AuthService, of OAuthService and of the administrators who ban users and revoke
-- sessions are committed afterwards, a later attempt returns false and changes nothing.
pub bootstrap_once :
    (user : User) (now : ℕ) (db db' : AuthTables) (user' : User) (now' : ℕ)
    → (bootstrap_locked user now db).0 ≡ true
    → Reach (bootstrap_locked user now db).1 db'
    → (db.users ≡ [])
      × ((bootstrap_locked user now db).1.users ≡ user ∷ [])
      × (bootstrap_locked user' now' db' ≡ (false, db'))
unfolding find
bootstrap_once user now db db' user' now' h r =
    let (empty, e, made, w) = bootstrap_locked-true user now db h in
    let new = claim_row now in
    let states = find-append_new is_key db.states (new ∷ []) e in
    let claimed : IsClaimed (bootstrap_locked user now db).1 = rw (w) (new, states, tt) in
    (
      empty,
      made,
      claimed-refuses user' now' db' (reach-Good IsClaimed write-IsClaimed _ db' r claimed),
    )
