-- ===== src/Auth.antt =====
-- The rows of the accounts: AppUser (but for the columns of one-time passwords, which no code
-- reads), AuthSession, AuthRefreshToken, SecurityAuditEvent and SystemState of
-- domainsmanager_persistence/models.py, and the tables that hold them. UserRecord, SessionRecord and RefreshTokenRecord of domainsmanager_application/auth.py
-- have the same fields as the rows, so the conversions between them are the identity.
pub mod Users
pub mod Sessions
pub mod Security
pub mod Service
pub mod Writes
pub mod Steps
pub mod Returns
pub mod Parts
pub mod Linked
pub mod Sequences
pub mod Forever
pub mod Replay
pub mod Revoked
pub mod Endings
pub mod Password
pub mod Live
pub mod Names
pub mod Windows
use domains_manager.Base.{ℕ, String, Bool, Option, List}
use domains_manager.Base.Dict.{Dict}
use domains_manager.Models.{Json}

pub record User : Type 0 where
  pub id : ℕ
  pub username : String
  pub username_normalized : String
  pub password_hash : String
  pub password_auth_enabled : Bool
  pub username_setup_required : Bool
  pub email : Option String
  pub pending_email : Option String
  pub email_verified_at : Option ℕ
  pub role : String
  pub preferences : Dict String Json
  pub is_active : Bool
  pub banned_at : Option ℕ
  pub ban_reason : Option String
  pub banned_by_user_id : Option ℕ
  pub password_changed_at : ℕ
  pub last_login_at : Option ℕ
  pub created_at : ℕ
  pub updated_at : ℕ

pub record Session : Type 0 where
  pub id : ℕ
  pub user_id : ℕ
  pub created_at : ℕ
  pub last_seen_at : ℕ
  pub absolute_expires_at : ℕ
  pub revoked_at : Option ℕ
  pub revoke_reason : Option String
  pub ip_hash : Option String
  pub user_agent : Option String

pub record RefreshToken : Type 0 where
  pub id : ℕ
  pub session_id : ℕ
  pub parent_token_id : Option ℕ
  pub replaced_by_token_id : Option ℕ
  pub token_hash : String
  pub issued_at : ℕ
  pub expires_at : ℕ
  pub consumed_at : Option ℕ
  pub revoked_at : Option ℕ

-- SecurityAuditEvent
pub record AuditEvent : Type 0 where
  pub event_type : String
  pub occurred_at : ℕ
  pub actor_user_id : Option ℕ
  pub target_type : Option String
  pub target_id : Option ℕ
  pub request_id : Option String
  pub ip_hash : Option String
  pub metadata : Dict String String

pub record SystemState : Type 0 where
  pub key : String
  pub created_at : ℕ

pub record AuthTables : Type 0 where
  pub users : List User
  pub sessions : List Session
  pub tokens : List RefreshToken
  pub audits : List AuditEvent
  pub states : List SystemState
