-- ===== src/Auth/Users.antt =====
-- SqlAlchemyUserRepository, SqlAlchemyAuditRepository and SqlAlchemySystemStateRepository
-- (domainsmanager_persistence/auth.py). A flush that breaks a unique index is an `err`.
use domains_manager.Base.{
  false, not, ◌&&◌, ℕ, String, Bool, true, false, ◌||◌, Option, none, some, [], ◌∷◌, ◌++◌, eqb,
  str_eq, length, if◌then◌else◌,
}
use domains_manager.Base.Dict.{Dict}
use domains_manager.Base.Table.{find, update, count}
use domains_manager.Base.Result.{Result, ok, err, duplicate_record, record_not_found}
use domains_manager.Models.{Json}
use domains_manager.Auth.{User, AuditEvent, AuthTables}

abbrev pub is_user : ℕ → User → Bool
is_user id u = eqb u.id id

abbrev pub is_named : String → User → Bool
is_named name u = str_eq u.username_normalized name

-- `count`
abbrev pub count_users : AuthTables → ℕ
count_users db = length db.users

-- `get_by_id`; `for_update` changes no value.
unfoldable pub get_by_id : ℕ → AuthTables → Option User
get_by_id id db = find (is_user id) db.users

unfoldable pub get_by_username : String → AuthTables → Option User
get_by_username name db = find (is_named name) db.users

-- The primary key, and the unique indexes of `username` and `username_normalized`.
abbrev pub user_conflicts : User → User → Bool
user_conflicts new u =
    eqb u.id new.id
    || str_eq u.username new.username
    || str_eq u.username_normalized new.username_normalized

-- The record that is added has neither a reason of a ban nor who banned it.
unfoldable pub add_user : User → AuthTables → Result AuthTables
add_user new db = elim (find (user_conflicts new) db.users) [
  | none ↦ ok (record db { users = db.users ++ (new ∷ []) })
  | some u ↦ err duplicate_record
]

-- `_update_user`
unfoldable pub update_user : ℕ → (User → User) → AuthTables → Result AuthTables
update_user id values db =
    if eqb (count (is_user id) db.users) 1
    then ok (record db { users = update (is_user id) values db.users })
    else err record_not_found

abbrev pub logged_in : ℕ → User → User
logged_in at u = record u { last_login_at = some at; updated_at = at }

abbrev pub set_last_login : ℕ → ℕ → AuthTables → Result AuthTables
set_last_login id at = update_user id (logged_in at)

abbrev pub with_profile : Option String → Option ℕ → ℕ → User → User
with_profile email verified at u = record u {
  email = email;
  email_verified_at = verified;
  updated_at = at;
}

abbrev pub update_profile : ℕ → Option String → Option ℕ → ℕ → AuthTables → Result AuthTables
update_profile id email verified at = update_user id (with_profile email verified at)

abbrev pub with_preferences : Dict String Json → ℕ → User → User
with_preferences preferences at u = record u { preferences = preferences; updated_at = at }

abbrev pub update_preferences : ℕ → Dict String Json → ℕ → AuthTables → Result AuthTables
update_preferences id preferences at = update_user id (with_preferences preferences at)

abbrev pub with_password : String → ℕ → User → User
with_password hash at u = record u {
  password_hash = hash;
  password_changed_at = at;
  updated_at = at;
}

abbrev pub update_password : ℕ → String → ℕ → AuthTables → Result AuthTables
update_password id hash at = update_user id (with_password hash at)

abbrev pub with_names : String → String → ℕ → User → User
with_names username normalized at u = record u {
  username = username;
  username_normalized = normalized;
  username_setup_required = false;
  updated_at = at;
}

-- Another user has one of the names.
abbrev pub is_namesake : ℕ → String → String → User → Bool
is_namesake id username normalized u =
    not (eqb u.id id) && (str_eq u.username username || str_eq u.username_normalized normalized)

-- `complete_username_setup`
unfoldable pub complete_username_setup : ℕ → String → String → ℕ → AuthTables → Result AuthTables
complete_username_setup id username normalized at db =
    elim (find (is_namesake id username normalized) db.users) [
      | none ↦ update_user id (with_names username normalized at) db
      | some u ↦ err duplicate_record
    ]

-- `SqlAlchemyAuditRepository.add`
abbrev pub add_audit : AuditEvent → AuthTables → AuthTables
add_audit event db = record db { audits = db.audits ++ (event ∷ []) }

-- `SqlAlchemySystemStateRepository.try_claim`: the key is the primary key.
unfoldable pub try_claim : String → ℕ → AuthTables → Bool × AuthTables
try_claim key at db = elim (find (λ s. str_eq s.key key) db.states) [
  | none ↦ (true, record db { states = db.states ++ (record { key = key; created_at = at } ∷ []) })
  | some s ↦ (false, db)
]
