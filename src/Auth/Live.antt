-- ===== src/Auth/Live.antt =====
-- A session has at most one refresh token that was not exchanged yet.
use domains_manager.Base.{
  ℕ, ◌+◌, ◌≤◌, Bool, true, false, ◌&&◌, some, none, [], ◌∷◌, ◌++◌, List, ◌≡◌, refl, subst, eqb,
  arith, inl, inr, is_none, Bool-cases, Option-cases,
}
use domains_manager.Base.Kept.{find-append}
use domains_manager.Base.Table.{
  find, update, count, find-update, find_other, find_sound, count-update, count-append,
  count_of_find,
}
use domains_manager.Base.Result.{ok, bind_ok}
use domains_manager.Auth.{Session, RefreshToken, User, AuthTables}
use domains_manager.Auth.Users.{add_user, try_claim}
use domains_manager.Auth.Sessions.{
  is_session, is_token, of_session, get_session, get_token, add_session, revoke_session,
  revoke_user_sessions, is_consumable, consumed, withdrawn, closed, is_open, is_unrevoked_of,
  is_unrevoked_in, is_open_of,
}
use domains_manager.Auth.Service.{
  AuthService, AuthContext, Draws, create_session, first_session, first_token, AuthenticationResult,
}
use domains_manager.Auth.Service.Rotation.{replacement}
use domains_manager.Auth.Service.Changes.{close_sessions, is_unrevoked_for, is_unrevoked_by}
use domains_manager.Auth.Steps.{Reach}
use domains_manager.Auth.Sequences.{reach-Good}
use domains_manager.Auth.Forever.{create_session_adds, exchange_writes}
use domains_manager.Auth.Writes.{
  Write, adds, sets, opens, exchanges, revokes, revokes_all, closes, notes, claims,
}

-- The tokens of a session that were not exchanged.
abbrev pub is_unconsumed_of : ℕ → RefreshToken → Bool
is_unconsumed_of sid t = eqb t.session_id sid && is_none t.consumed_at

abbrev pub IsChainedIn : List Session → List RefreshToken → Type 0
IsChainedIn ss ts =
    (sid : ℕ)
    → (find (is_session sid) ss ≡ none → count (of_session sid) ts ≡ 0)
      × (count (is_unconsumed_of sid) ts ≤ 1)

-- Every token has its session, and a session at most one token that was not exchanged.
abbrev pub IsChained : AuthTables → Type 0
IsChained db = IsChainedIn db.sessions db.tokens

-- Rows that satisfy `p` and `q` lose `p` in an update of those with `q`.
pub count-update_lost {ℓ} :
    {R : Type ℓ} (p q : R → Bool) (f : R → R) (rs : List R)
    → ((r : R) → q r ≡ true → p (f r) ≡ false)
    → count p (update q f rs) + count (λ r. q r && p r) rs ≡ count p rs
unfolding count update
count-update_lost p q f [] h = refl
count-update_lost p q f (x ∷ rs) h = ground (arith, h x, count-update_lost p q f rs h)

find-update_is_none :
    (sid : ℕ) (q : Session → Bool) (f : Session → Session) (ss : List Session)
    → ((s : Session) → (f s).id ≡ s.id)
    → find (is_session sid) (update q f ss) ≡ none
    → find (is_session sid) ss ≡ none
find-update_is_none sid q f ss same h =
    let kept = find-update (is_session sid) q f ss (λ s e. rw (same s) refl) in
    elim (Option-cases (find (is_session sid) ss)) [
      | inl e ↦ e
      | inr (s, e) ↦ absurd (ground arith)
    ]

withdrawn-IsChainedIn :
    (q : RefreshToken → Bool) (at : ℕ) (ss : List Session) (ts : List RefreshToken)
    → IsChainedIn ss ts
    → IsChainedIn ss (update q (withdrawn at) ts)
withdrawn-IsChainedIn q at ss ts h sid =
    let (a, b) = h sid in
    (
      (λ e. rw (count-update (of_session sid) q (withdrawn at) ts (λ t z. refl)) (a e)),
      rw (count-update (is_unconsumed_of sid) q (withdrawn at) ts (λ t z. refl)) b,
    )

updated-IsChainedIn :
    (q : Session → Bool) (f : Session → Session) (ss : List Session) (ts : List RefreshToken)
    → ((s : Session) → (f s).id ≡ s.id)
    → IsChainedIn ss ts
    → IsChainedIn (update q f ss) ts
updated-IsChainedIn q f ss ts same h sid =
    let (a, b) = h sid in ((λ e. a (find-update_is_none sid q f ss same e)), b)

create_session-fresh :
    (s : AuthService) (x : Draws) (user : User) (context : AuthContext) (now : ℕ)
    (db db' : AuthTables) (r : AuthenticationResult)
    → create_session s x user context now db ≡ ok (r, db')
    → get_session x.session_id db ≡ none
unfolding create_session add_session
create_session-fresh s x user context now db db' r h =
    let (db1, e1, k1) = bind_ok (add_session (first_session s x user context now) db) _ h in
    elim (Option-cases (get_session x.session_id db)) [
      | inl e ↦ e
      | inr (y, e) ↦ absurd (ground arith)
    ]

find_of_append-none :
    (p : Session → Bool) (ss : List Session) (s : Session)
    → find p (ss ++ (s ∷ [])) ≡ none
    → (find p ss ≡ none) × (p s ≡ false)
unfolding find
find_of_append-none p [] s h = (refl, ground arith)
find_of_append-none p (x ∷ ss) s h = ground (arith, find_of_append-none p ss s)

count_both :
    (sid : ℕ) (ts : List RefreshToken) → count (is_unconsumed_of sid) ts ≤ count (of_session sid) ts
unfolding count
count_both sid [] = omega arith
count_both sid (t ∷ ts) = ground (arith, count_both sid ts)

opened-IsChainedIn :
    (s : Session) (t : RefreshToken) (ss : List Session) (ts : List RefreshToken)
    → find (is_session s.id) ss ≡ none
    → t.session_id ≡ s.id
    → IsChainedIn ss ts
    → IsChainedIn (ss ++ (s ∷ [])) (ts ++ (t ∷ []))
unfolding count
opened-IsChainedIn s t ss ts new same h sid =
    let (a, b) = h sid in
    let both = count_both sid ts in
    let own = count-append (of_session sid) ts (t ∷ []) in
    let live = count-append (is_unconsumed_of sid) ts (t ∷ []) in
    (
      (λ e. let (f, g) = find_of_append-none (is_session sid) ss s e in ground (arith, a f)),
      elim (Bool-cases (eqb s.id sid)) [
        | inl e ↦
            let it : s.id ≡ sid = ground arith in
            let zero : count (of_session sid) ts ≡ 0 =
              a (subst (λ i. find (is_session i) ss ≡ none) it new) in
            ground arith
        | inr e ↦ ground arith
      ],
    )

exchanged-IsChainedIn :
    (old new : RefreshToken) (s : Session) (r at : ℕ) (ss : List Session) (ts : List RefreshToken)
    → find (is_token old.id) ts ≡ some old
    → find (is_session old.session_id) ss ≡ some s
    → new.session_id ≡ old.session_id
    → is_consumable old.id old ≡ true
    → IsChainedIn ss ts
    → IsChainedIn ss (update (is_consumable old.id) (consumed r at) (ts ++ (new ∷ [])))
unfolding count
exchanged-IsChainedIn old new s r at ss ts e f same usable h sid =
    let (a, b) = h sid in
    let q = is_consumable old.id in
    let p = is_unconsumed_of sid in
    let rows = ts ++ (new ∷ []) in
    let own = count-append (of_session sid) ts (new ∷ []) in
    let kept = count-update (of_session sid) q (consumed r at) rows (λ t z. refl) in
    let live = count-append p ts (new ∷ []) in
    let lost = count-update_lost p q (consumed r at) rows (λ t z. ground arith) in
    (
      (λ z. elim (Bool-cases (eqb old.session_id sid)) [
        | inl g ↦
            let it : old.session_id ≡ sid = ground arith in
            let there = subst (λ i. find (is_session i) ss ≡ some s) it f in absurd (ground arith)
        | inr g ↦ ground (arith, a z)
      ]),
      elim (Bool-cases (eqb old.session_id sid)) [
        | inl g ↦
            let hit : (q old && p old) ≡ true = ground arith in
            let there =
              find_other (is_token old.id) (λ t. q t && p t) rows
                (find-append (is_token old.id) ts (new ∷ []) e) hit in
            elim (Option-cases (find (λ t. q t && p t) rows)) [
              | inl z ↦ absurd (there z)
              | inr (y, z) ↦ let one = count_of_find (λ t. q t && p t) rows z in ground arith
            ]
        | inr g ↦ ground arith
      ],
    )

write-IsChained : (db db' : AuthTables) → Write db db' → IsChained db → IsChained db'
unfolding add_user revoke_session revoke_user_sessions close_sessions try_claim get_token
    get_session
write-IsChained db db' (adds user e) h =
    subst (λ ss. IsChainedIn ss db'.tokens) (ground arith)
      (subst (IsChainedIn db.sessions) (ground arith) h)
write-IsChained db db' (sets q f a e) h = rw (e) h
write-IsChained db db' (opens s x user context now r e) h =
    let (a, b, c, d) = create_session_adds s x user context now db db' r e in
    rw (a, b)
      (opened-IsChainedIn (first_session s x user context now) (first_token s x now) db.sessions
        db.tokens (create_session-fresh s x user context now db db' r e) refl h)
write-IsChained db db' (exchanges s x token session user context now r f g usable e) h =
    let named = find_sound (is_session token.session_id) db.sessions g in
    let same : session.id ≡ token.session_id = ground arith in
    let (a, b, c, d) = exchange_writes s x token session user context now db db' r e in
    rw (a, b)
      (updated-IsChainedIn (is_open session.id) (λ s. record s { last_seen_at = now }) db.sessions _
        (λ s. refl)
        (exchanged-IsChainedIn token (replacement s x token session now) session x.token_id now
          db.sessions db.tokens f g same usable h))
write-IsChained db db' (revokes i at reason e) h = rw (e) (
    updated-IsChainedIn (is_open i) (closed at reason) db.sessions _ (λ s. refl)
      (withdrawn-IsChainedIn (is_unrevoked_of i) at db.sessions db.tokens h))
write-IsChained db db' (revokes_all user at reason except e) h = rw (e) (
    updated-IsChainedIn (is_open_of user except) (closed at reason) db.sessions _ (λ s. refl)
      (withdrawn-IsChainedIn (is_unrevoked_in user except db) at db.sessions db.tokens h))
write-IsChained db db' (closes user at e) h = rw (e) (
    updated-IsChainedIn (is_unrevoked_by user) (closed at "admin_banned") db.sessions _ (λ s. refl)
      (withdrawn-IsChainedIn (is_unrevoked_for user db) at db.sessions db.tokens h))
write-IsChained db db' (notes event e) h = rw (e) h
write-IsChained db db' (claims key at e) h =
    subst (λ ss. IsChainedIn ss db'.tokens) (ground arith)
      (subst (IsChainedIn db.sessions) (ground arith) h)

-- Where every refresh token belongs to a session that is there, and a session has at most one refresh
-- token that was not exchanged yet, this stays so whatever transactions of AuthService, of OAuthService
-- and of the administrators who ban users and revoke sessions are committed, in any order.
pub Reach-IsChained : (db db' : AuthTables) → Reach db db' → IsChained db → IsChained db'
Reach-IsChained = reach-Good IsChained write-IsChained
