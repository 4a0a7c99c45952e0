-- ===== src/Models/Notices.antt =====
-- NotificationRule and NotificationOutbox, with the envelope that an outbox row carries.
use domains_manager.Base.{ℕ, String, Bool, true, false, List, Option}
use domains_manager.Base.Dict.{Dict}
use domains_manager.Models.Values.{Json}

pub data EventType : Type 0 where
  expiration_warning status_changed query_failed : EventType

pub data Channel : Type 0 where
  email webhook : Channel

pub data Delivery : Type 0 where
  pending running sent dead_letter skipped : Delivery

pub record Rule : Type 0 where
  pub id : ℕ
  pub user_id : ℕ
  pub domain_id : Option ℕ
  pub event_type : EventType
  pub days_before : Option ℕ
  pub channel : Channel
  pub webhook_name : Option String
  pub channel_config : Dict String Json
  pub is_enabled : Bool
  pub created_at : ℕ
  pub updated_at : ℕ
  pub deleted_at : Option ℕ

-- The "data" object of each event type.
pub data Payload : Type 0 where
  changed : (domain_id check_id : ℕ) → List String → Payload
  failing : (domain_id check_id : ℕ) → String → Payload
  expiring : (domain_id check_id expires_at days_before : ℕ) → Payload

pub record Envelope : Type 0 where
  pub id : ℕ
  pub type : EventType
  pub api_version : String
  pub created_at : ℕ
  pub payload : Payload
  pub webhook : Option (ℕ × Option String)

pub record Outbox : Type 0 where
  pub id : ℕ
  pub rule_id : ℕ
  pub domain_id : ℕ
  pub check_id : ℕ
  pub deduplication_key : String
  pub event_type : EventType
  pub payload : Envelope
  pub status : Delivery
  pub attempt_count : ℕ
  pub available_at : Option ℕ
  pub lease_until : Option ℕ
  pub lease_token : Option ℕ
  pub lease_owner : Option String
  pub sent_at : Option ℕ
  pub outcome : Option String
  pub response_status_code : Option ℕ
  pub last_error : Option String
  pub created_at : ℕ
  pub updated_at : ℕ

abbrev pub event_beq : EventType → EventType → Bool
event_beq expiration_warning expiration_warning = true
event_beq status_changed status_changed = true
event_beq query_failed query_failed = true
event_beq _ _ = false

abbrev pub is_email : Channel → Bool
is_email email = true
is_email webhook = false

abbrev pub is_pending : Delivery → Bool
is_pending pending = true
is_pending _ = false

abbrev pub is_in_delivery : Delivery → Bool
is_in_delivery running = true
is_in_delivery _ = false
