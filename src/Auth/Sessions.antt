-- ===== src/Auth/Sessions.antt =====
-- SqlAlchemyAuthSessionRepository (domainsmanager_persistence/auth.py). A flush that breaks the
-- primary key, a unique index or a foreign key is an `err`.
use domains_manager.Base.{
  ℕ, String, Bool, ◌||◌, ◌&&◌, not, Option, none, some, [], ◌∷◌, ◌++◌, eqb, opt_eqb, str_eq,
  is_none, is_some, some_and, none_or, if◌then◌else◌,
}
use domains_manager.Base.Table.{find, update, count}
use domains_manager.Base.Result.{
  Result, ok, err, duplicate_record, concurrent_update, record_not_found, integrity_error,
}
use domains_manager.Auth.{Session, RefreshToken, AuthTables}
use domains_manager.Auth.Users.{get_by_id}

abbrev pub is_session : ℕ → Session → Bool
is_session id s = eqb s.id id

abbrev pub is_token : ℕ → RefreshToken → Bool
is_token id t = eqb t.id id

abbrev pub of_session : ℕ → RefreshToken → Bool
of_session id t = eqb t.session_id id

unfoldable pub get_session : ℕ → AuthTables → Option Session
get_session id db = find (is_session id) db.sessions

unfoldable pub get_token : ℕ → AuthTables → Option RefreshToken
get_token id db = find (is_token id) db.tokens

unfoldable pub add_session : Session → AuthTables → Result AuthTables
add_session new db =
    if is_none (get_session new.id db) && is_some (get_by_id new.user_id db)
    then ok (record db { sessions = db.sessions ++ (new ∷ []) })
    else err integrity_error

-- The unique columns of a token.
abbrev pub token_conflicts : RefreshToken → RefreshToken → Bool
token_conflicts new t =
    eqb t.id new.id
    || str_eq t.token_hash new.token_hash
    || some_and new.parent_token_id (opt_eqb t.parent_token_id)

-- The tokens that it refers to exist.
abbrev pub is_reference : Option ℕ → AuthTables → Bool
is_reference id db = none_or id (λ i. is_some (get_token i db))

unfoldable pub add_token : RefreshToken → AuthTables → Result AuthTables
add_token new db =
    if is_none (find (token_conflicts new) db.tokens)
      && is_some (get_session new.session_id db)
      && is_reference new.parent_token_id db
      && is_reference new.replaced_by_token_id db
    then ok (record db { tokens = db.tokens ++ (new ∷ []) })
    else err duplicate_record

-- A token that was neither exchanged nor revoked.
abbrev pub is_unused : RefreshToken → Bool
is_unused t = is_none t.consumed_at && is_none t.revoked_at

abbrev pub is_consumable : ℕ → RefreshToken → Bool
is_consumable id t = eqb t.id id && is_none t.consumed_at && is_none t.revoked_at

abbrev pub consumed : ℕ → ℕ → RefreshToken → RefreshToken
consumed replacement at t = record t {
  consumed_at = some at;
  replaced_by_token_id = some replacement;
}

unfoldable pub consume_token : ℕ → ℕ → ℕ → AuthTables → Result AuthTables
consume_token id replacement at db =
    if eqb (count (is_consumable id) db.tokens) 1
    then ok (record db { tokens = update (is_consumable id) (consumed replacement at) db.tokens })
    else err concurrent_update

abbrev pub is_open : ℕ → Session → Bool
is_open id s = eqb s.id id && is_none s.revoked_at

unfoldable pub touch_session : ℕ → ℕ → AuthTables → Result AuthTables
touch_session id at db =
    if eqb (count (is_open id) db.sessions) 1
    then ok (record db {
      sessions = update (is_open id) (λ s. record s { last_seen_at = at }) db.sessions;
    })
    else err record_not_found

abbrev pub closed : ℕ → String → Session → Session
closed at reason s = record s { revoked_at = some at; revoke_reason = some reason }

abbrev pub withdrawn : ℕ → RefreshToken → RefreshToken
withdrawn at t = record t { revoked_at = some at }

abbrev pub is_unrevoked_of : ℕ → RefreshToken → Bool
is_unrevoked_of id t = eqb t.session_id id && is_none t.revoked_at

unfoldable pub revoke_session : ℕ → ℕ → String → AuthTables → AuthTables
revoke_session id at reason db = record db {
  sessions = update (is_open id) (closed at reason) db.sessions;
  tokens = update (is_unrevoked_of id) (withdrawn at) db.tokens;
}

-- The open sessions of a user, but for the one excluded.
abbrev pub is_open_of : ℕ → Option ℕ → Session → Bool
is_open_of user except s =
    eqb s.user_id user && is_none s.revoked_at && none_or except (λ e. not (eqb s.id e))

-- The tokens whose session is among the selected ones.
abbrev pub is_unrevoked_in : ℕ → Option ℕ → AuthTables → RefreshToken → Bool
is_unrevoked_in user except db t =
    is_some (find (λ (s : Session). eqb s.id t.session_id && is_open_of user except s) db.sessions)
    && is_none t.revoked_at

-- `_revoke_user_sessions`: the tokens first, by the sessions that are open before.
unfoldable pub revoke_user_sessions : ℕ → ℕ → String → Option ℕ → AuthTables → AuthTables
revoke_user_sessions user at reason except db = record db {
  tokens = update (is_unrevoked_in user except db) (withdrawn at) db.tokens;
  sessions = update (is_open_of user except) (closed at reason) db.sessions;
}

abbrev pub revoke_other_sessions : ℕ → ℕ → ℕ → String → AuthTables → AuthTables
revoke_other_sessions user current at reason = revoke_user_sessions user at reason (some current)

abbrev pub revoke_all_sessions : ℕ → ℕ → String → AuthTables → AuthTables
revoke_all_sessions user at reason = revoke_user_sessions user at reason none
