-- ===== src/Auth/Replay.antt =====
-- A refresh token is good for one exchange, and a revoked session for none.
use domains_manager.Base.{
  ℕ, ◌≤◌, ◌<◌, ◌+◌, String, Bool, true, false, some, none, [], ◌∷◌, ◌++◌, List, ◌≡◌, refl, subst,
  eqb, arith, inl, inr, Bool-cases, eqb_refl, Option-cases,
}
use domains_manager.Base.Kept.{find-append, find-append_new}
use domains_manager.Base.Table.{find, find-update, find_sound}
use domains_manager.Base.Result.{Error, ok, err, bind_ok, Result-cases}
use domains_manager.Auth.{Session, RefreshToken, User, AuthTables}
use domains_manager.Auth.Sessions.{
  token_conflicts, add_token, is_session, is_token, get_token, get_session, is_consumable, consumed,
}
use domains_manager.Auth.Service.{AuthService, AuthContext, Draws, TokenPair, token_is_active}
use domains_manager.Auth.Service.Rotation.{rotate_locked, replacement, exchange}
use domains_manager.Auth.Steps.{Reach}
use domains_manager.Auth.Returns.{rotate_locked-Rotates}
use domains_manager.Auth.Forever.{IsConsumed, Reach-IsConsumed, exchange_writes}

-- A rotation of a token that was exchanged raises.
consumed_refused :
    (s : AuthService) (x : Draws) (id : ℕ) (digest : String) (resolved : Session)
    (context : AuthContext) (now : ℕ) (db : AuthTables)
    → IsConsumed id db
    → (cause : Error) × (rotate_locked s x id digest resolved context now db ≡ err cause)
unfolding get_token
consumed_refused s x id digest resolved context now db (t, e, h) =
    elim (Result-cases (rotate_locked s x id digest resolved context now db)) [
      | inr bad ↦ bad
      | inl ((pair, db'), f) ↦
          let r = rotate_locked-Rotates s x id digest resolved context now pair db db' f in
          let found : find (is_token id) db.tokens ≡ some r.token = r.token_found in
          let same : t ≡ r.token = ground arith in
          let fresh : t.consumed_at ≡ none = rw (same) r.unconsumed in absurd (ground arith)
    ]

exchange-IsConsumed :
    (s : AuthService) (x : Draws) (id : ℕ) (digest : String) (resolved : Session)
    (context : AuthContext) (now : ℕ) (pair : TokenPair) (db db' : AuthTables)
    → rotate_locked s x id digest resolved context now db ≡ ok (pair, db')
    → IsConsumed id db'
unfolding get_token
exchange-IsConsumed s x id digest resolved context now pair db db' h =
    let r = rotate_locked-Rotates s x id digest resolved context now pair db db' h in
    let token = r.token in
    let found : find (is_token id) db.tokens ≡ some token = r.token_found in
    let same : eqb token.id token.id ≡ true = eqb_refl token.id in
    let fresh : token.consumed_at ≡ none = r.unconsumed in
    let active : token_is_active token r.session now ≡ true = r.active in
    let usable : is_consumable token.id token ≡ true = ground arith in
    let (a, b, c, d) =
      exchange_writes s x token r.session r.user context now db db' pair r.exchanged in
    let new = replacement s x token r.session now in
    let kept =
      find-update (is_token id) (is_consumable token.id) (consumed x.token_id now)
        (db.tokens ++ (new ∷ [])) (λ t e. refl) in
    let old = find-append (is_token id) db.tokens (new ∷ []) found in
    (consumed x.token_id now token, rw (b, kept, old, usable) refl, refl)

-- A refresh token is exchanged at most once: after a rotation returned for it, whatever transactions
-- of AuthService, of OAuthService and of the administrators who ban users and revoke sessions were
-- committed since, a rotation of that token raises, at any time and whatever digest and session the
-- caller resolved.
pub exchanged_once :
    (s : AuthService) (x : Draws) (id : ℕ) (digest : String) (resolved : Session)
    (context : AuthContext) (now : ℕ) (pair : TokenPair) (db db' db'' : AuthTables)
    → rotate_locked s x id digest resolved context now db ≡ ok (pair, db')
    → Reach db' db''
    → (x' : Draws) (digest' : String) (resolved' : Session) (context' : AuthContext) (now' : ℕ)
    → (cause : Error) × (rotate_locked s x' id digest' resolved' context' now' db'' ≡ err cause)
exchanged_once s x id digest resolved context now pair db db' db'' h r x' digest' resolved' context'
      now' =
    consumed_refused s x' id digest' resolved' context' now' db'' (
      Reach-IsConsumed id db' db'' r
        (exchange-IsConsumed s x id digest resolved context now pair db db' h))

find_of_conflict-none :
    (p q : RefreshToken → Bool) (ts : List RefreshToken)
    → ((t : RefreshToken) → q t ≡ true → p t ≡ true)
    → find p ts ≡ none
    → find q ts ≡ none
unfolding find
find_of_conflict-none p q [] qp h = refl
find_of_conflict-none p q (t ∷ ts) qp h = ground (arith, qp t, find_of_conflict-none p q ts qp)

-- A token that is inserted has an identifier that no other token has.
add_token-fresh :
    (new : RefreshToken) (db db' : AuthTables)
    → add_token new db ≡ ok db'
    → find (is_token new.id) db.tokens ≡ none
unfolding add_token
add_token-fresh new db db' h = elim (Option-cases (find (token_conflicts new) db.tokens)) [
  | inl e ↦
      find_of_conflict-none (token_conflicts new) (is_token new.id) db.tokens (λ t f. ground arith)
        e
  | inr (t, e) ↦ absurd (ground arith)
]

exchange-fresh :
    (s : AuthService) (x : Draws) (token : RefreshToken) (session : Session) (user : User)
    (context : AuthContext) (now : ℕ) (db db' : AuthTables) (r : TokenPair)
    → exchange s x token session user context now db ≡ ok (r, db')
    → find (is_token x.token_id) db.tokens ≡ none
unfolding exchange
exchange-fresh s x token session user context now db db' r h =
    let (db1, e1, k1) = bind_ok (add_token (replacement s x token session now) db) _ h in
    add_token-fresh (replacement s x token session now) db db1 e1

-- A rotation that returns exchanges a token that is not expired, of a session that is not expired,
-- for a new token of the same session that was not exchanged, names the old one as its parent, and
-- expires neither later than its lifetime allows nor later than the session.
pub rotate_bounds :
    (s : AuthService) (x : Draws) (id : ℕ) (digest : String) (resolved : Session)
    (context : AuthContext) (now : ℕ) (pair : TokenPair) (db db' : AuthTables)
    → rotate_locked s x id digest resolved context now db ≡ ok (pair, db')
    → (token : RefreshToken) × (session : Session) × (new : RefreshToken) × (get_token id db
        ≡ some token)
      × (get_session token.session_id db ≡ some session)
      × (now < token.expires_at)
      × (now < session.absolute_expires_at)
      × (get_token x.token_id db' ≡ some new)
      × (new.session_id ≡ token.session_id)
      × (new.consumed_at ≡ none)
      × (new.parent_token_id ≡ some token.id)
      × (new.expires_at ≤ now + s.refresh_ttl)
      × (new.expires_at ≤ session.absolute_expires_at)
unfolding get_token get_session find
rotate_bounds s x id digest resolved context now pair db db' h =
    let r = rotate_locked-Rotates s x id digest resolved context now pair db db' h in
    let token = r.token in
    let session = r.session in
    let found : find (is_token id) db.tokens ≡ some token = r.token_found in
    let there : find (is_session token.session_id) db.sessions ≡ some session = r.session_found in
    let active : token_is_active token session now ≡ true = r.active in
    let named = find_sound (is_session token.session_id) db.sessions there in
    let it = find_sound (is_token id) db.tokens found in
    let (a, b, c, d) =
      exchange_writes s x token session r.user context now db db' pair r.exchanged in
    let new = replacement s x token session now in
    let free = exchange-fresh s x token session r.user context now db db' pair r.exchanged in
    let kept =
      find-update (is_token x.token_id) (is_consumable token.id) (consumed x.token_id now)
        (db.tokens ++ (new ∷ [])) (λ t e. refl) in
    let last = find-append_new (is_token x.token_id) db.tokens (new ∷ []) free in
    let mine = eqb_refl x.token_id in
    let other : is_consumable token.id new ≡ false = elim (Bool-cases (eqb x.token_id token.id)) [
      | inr e ↦ ground arith
      | inl e ↦
          let same : id ≡ x.token_id = ground arith in
          let clash = subst (λ i. find (is_token i) db.tokens ≡ some token) same found in
          absurd (ground arith)
    ] in
    (
      token,
      session,
      new,
      found,
      there,
      ground arith,
      ground arith,
      rw (b, kept, last, find, mine, other) refl,
      ground arith,
      refl,
      refl,
      ground arith,
      ground arith,
    )
