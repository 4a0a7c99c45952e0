-- ===== src/OAuth/Attempts.antt =====
-- An authorization is completed once.
use domains_manager.Base.{
  ℕ, ◌≤◌, none, some, List, [], ◌∷◌, ◌≡◌, refl, arith, inl, inr, String, Option-cases,
}
use domains_manager.Base.Table.{find, update}
use domains_manager.OAuth.{AuthorizationAttempt, OAuthTables, consume_attempt, is_attempt, used}

used_up :
    (provider state browser : String) (now later : ℕ) (rows : List AuthorizationAttempt)
    → now ≤ later
    → find
        (is_attempt provider state browser later)
        (update (is_attempt provider state browser now) (used now) rows)
      ≡ none
unfolding find update
used_up provider state browser now later [] h = refl
used_up provider state browser now later (a ∷ rows) h =
    ground (arith, used_up provider state browser now later rows h)

nothing_to_consume :
    (provider state browser : String) (now : ℕ) (db : OAuthTables)
    → find (is_attempt provider state browser now) db.attempts ≡ none
    → consume_attempt provider state browser now db ≡ (none, db)
unfolding consume_attempt
nothing_to_consume provider state browser now db e = rw (e, consume_attempt) refl

-- A callback is served once: after an attempt was consumed, the same provider, state and browser find
-- no attempt at the same time or later, and nothing is changed.
pub consumed_once :
    (provider state browser : String) (now later : ℕ) (db : OAuthTables)
    (attempt : AuthorizationAttempt)
    → (consume_attempt provider state browser now db).0 ≡ some attempt
    → now ≤ later
    → let db' = (consume_attempt provider state browser now db).1 in
      consume_attempt provider state browser later db' ≡ (none, db')
unfolding consume_attempt
consumed_once provider state browser now later db attempt h le =
    elim (Option-cases (find (is_attempt provider state browser now) db.attempts)) [
      | inl e ↦ absurd (ground arith)
      | inr (a, e) ↦
          let gone = used_up provider state browser now later db.attempts le in
          let written : (consume_attempt provider state browser now db).1.attempts
              ≡ update (is_attempt provider state browser now) (used now) db.attempts =
            rw (e, consume_attempt) refl in
          nothing_to_consume provider state browser later
            (consume_attempt provider state browser now db).1 (rw (written) gone)
    ]
