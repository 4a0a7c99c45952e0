-- ===== src/OAuth.antt =====
-- SqlAlchemyOAuthRepository (domainsmanager_persistence/oauth.py): the identities at external
-- providers that are linked to users, and the attempts at an authorization.
pub mod Service
pub mod Callback
pub mod Unlinking
pub mod Attempts
pub mod Moves
use domains_manager.Base.{
  ℕ, String, Bool, true, false, ◌||◌, ◌&&◌, not, Option, none, some, List, [], ◌∷◌, ◌++◌, eqb, leb,
  ltb, str_eq, if◌then◌else◌, is_none, is_some,
}
use domains_manager.Base.Table.{find, select, update}
use domains_manager.Base.Result.{Result, ok, err, duplicate_record, integrity_error}
use domains_manager.Auth.{User, AuthTables}
use domains_manager.Auth.Users.{is_user}

-- UserAuthIdentity; `profile` is the canonical text of a JSON object.
pub record IdentityRecord : Type 0 where
  pub id : ℕ
  pub user_id : ℕ
  pub provider_key : String
  pub provider_subject : String
  pub provider_username : Option String
  pub display_name : Option String
  pub avatar_url : Option String
  pub profile : String
  pub created_at : ℕ
  pub updated_at : ℕ
  pub last_login_at : Option ℕ

pub data Intent : Type 0 where
  -- A login, and a link with its user and session.
  login : Intent
  link : ℕ → ℕ → Intent

-- OAuthAuthorizationAttempt
pub record AuthorizationAttempt : Type 0 where
  pub id : ℕ
  pub provider_key : String
  pub intent : Intent
  pub state_hash : String
  pub browser_hash : String
  pub return_to : String
  pub code_verifier : Option String
  pub created_at : ℕ
  pub expires_at : ℕ
  pub consumed_at : Option ℕ

pub record OAuthTables : Type 0 where
  pub accounts : AuthTables
  pub identities : List IdentityRecord
  pub attempts : List AuthorizationAttempt

abbrev pub attempt_conflicts : AuthorizationAttempt → AuthorizationAttempt → Bool
attempt_conflicts new a = eqb a.id new.id || str_eq a.state_hash new.state_hash

-- `add_attempt`
unfoldable pub add_attempt : AuthorizationAttempt → OAuthTables → Result OAuthTables
add_attempt new db = elim (find (attempt_conflicts new) db.attempts) [
  | none ↦ ok (record db { attempts = db.attempts ++ (new ∷ []) })
  | some a ↦ err integrity_error
]

abbrev pub is_attempt : String → String → String → ℕ → AuthorizationAttempt → Bool
is_attempt provider state_hash browser_hash now a =
    str_eq a.provider_key provider
    && (str_eq a.state_hash state_hash
        && (str_eq a.browser_hash browser_hash && (ltb now a.expires_at && is_none a.consumed_at)))

abbrev pub used : ℕ → AuthorizationAttempt → AuthorizationAttempt
used at a = record a { consumed_at = some at }

-- `consume_attempt`; the hash of the state is unique.
unfoldable pub consume_attempt :
    String → String → String → ℕ → OAuthTables → Option AuthorizationAttempt × OAuthTables
consume_attempt provider state_hash browser_hash now db =
    elim (find (is_attempt provider state_hash browser_hash now) db.attempts) [
      | none ↦ (none, db)
      | some a ↦ (
        some (used now a),
        record db {
          attempts =
              update (is_attempt provider state_hash browser_hash now) (used now) db.attempts;
        },
      )
    ]

-- `cleanup`
abbrev pub cleanup_attempts : ℕ → OAuthTables → OAuthTables
cleanup_attempts now db = record db { attempts = select (λ a. ltb now a.expires_at) db.attempts }

abbrev pub is_identity : String → String → IdentityRecord → Bool
is_identity provider subject i = str_eq i.provider_key provider && str_eq i.provider_subject subject

-- `get_identity`
unfoldable pub get_identity : String → String → OAuthTables → Option IdentityRecord
get_identity provider subject db = find (is_identity provider subject) db.identities

-- `list_identities`, in the order of the table; no caller uses the order by provider but for display.
abbrev pub list_identities : ℕ → OAuthTables → List IdentityRecord
list_identities user db = select (λ i. eqb i.user_id user) db.identities

-- The primary key and the two unique constraints.
abbrev pub identity_conflicts : IdentityRecord → IdentityRecord → Bool
identity_conflicts new i =
    eqb i.id new.id
    || (is_identity new.provider_key new.provider_subject i
        || (eqb i.user_id new.user_id && str_eq i.provider_key new.provider_key))

-- `add_identity`
unfoldable pub add_identity : IdentityRecord → OAuthTables → Result OAuthTables
add_identity new db = elim (find (identity_conflicts new) db.identities) [
  | none ↦ ok (record db { identities = db.identities ++ (new ∷ []) })
  | some i ↦ err duplicate_record
]

-- `update_identity`
abbrev pub update_identity : IdentityRecord → OAuthTables → OAuthTables
update_identity new db = record db {
  identities = update (λ i. eqb i.id new.id) (λ i. new) db.identities;
}

-- `delete_identity`
abbrev pub delete_identity : ℕ → OAuthTables → OAuthTables
delete_identity id db = record db { identities = select (λ i. not (eqb i.id id)) db.identities }

-- `enable_password`
abbrev pub enable_password : ℕ → AuthTables → AuthTables
enable_password id db = record db {
  users = update (is_user id) (λ u. record u { password_auth_enabled = true }) db.users;
}
