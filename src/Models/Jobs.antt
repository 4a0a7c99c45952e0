-- ===== src/Models/Jobs.antt =====
-- DomainRefreshTask, IdempotencyRecord and DomainCheck.
use domains_manager.Base.{ℕ, String, Bool, true, false, List, Option}
use domains_manager.Models.Values.{Json, Snapshot}

pub data Status : Type 0 where
  queued running success info warning failed : Status

pub data Origin : Type 0 where
  manual scheduled monitor_enabled backfill : Origin

pub record Task : Type 0 where
  pub id : ℕ
  pub user_id : ℕ
  pub domain_id : ℕ
  pub status : Status
  pub origin : Origin
  pub force_refresh : Bool
  pub attempt_count : ℕ
  pub max_attempts : ℕ
  pub available_at : ℕ
  pub lease_token : Option ℕ
  pub lease_owner : Option String
  pub lease_until : Option ℕ
  pub started_at : Option ℕ
  pub completed_at : Option ℕ
  pub check_id : Option ℕ
  pub source_check_id : Option ℕ
  pub error_code : Option String
  pub error_message : Option String
  pub result_code : Option String
  pub result_message : Option String
  pub fresh_until : Option ℕ
  pub created_at : ℕ
  pub updated_at : ℕ

abbrev pub is_queued : Status → Bool
is_queued queued = true
is_queued _ = false

abbrev pub is_running : Status → Bool
is_running running = true
is_running _ = false

-- status IN ('queued', 'running')
abbrev pub is_active : Status → Bool
is_active queued = true
is_active running = true
is_active _ = false

abbrev pub is_scheduled : Origin → Bool
is_scheduled scheduled = true
is_scheduled _ = false

-- The operation of every record is "domain_refresh", and its resource a domain.
pub record Idempotency : Type 0 where
  pub id : ℕ
  pub user_id : ℕ
  pub resource_id : ℕ
  pub key : String
  pub fingerprint : String
  pub task_id : ℕ
  pub created_at : ℕ
  pub expires_at : ℕ

pub record Check : Type 0 where
  pub id : ℕ
  pub domain_id : ℕ
  pub checked_at : ℕ
  pub duration_ms : ℕ
  pub outcome : String
  pub error_code : Option String
  pub error_message : Option String
  pub protocol : Json
  pub source : Json
  pub snapshot : Option Snapshot
  pub snapshot_hash : Option String
  pub changed_fields : List String
  pub is_stale : Bool
  pub created_at : ℕ
