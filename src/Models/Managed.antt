-- ===== src/Models/Managed.antt =====
-- ManagedDomain.
use domains_manager.Base.{ℕ, String, Bool, Option}
use domains_manager.Models.Values.{Json}

pub record Domain : Type 0 where
  pub id : ℕ
  pub user_id : ℕ
  pub name_ascii : String
  pub name_unicode : String
  pub registrable_domain : String
  pub public_suffix : String
  pub tld : String
  pub registrar_json : Json
  pub statuses : Json
  pub registered_at : Option ℕ
  pub expires_at : Option ℕ
  pub registry_expires_at : Option ℕ
  pub registrar_expires_at : Option ℕ
  pub expiration_status : String
  pub expiration_checked_at : Option ℕ
  pub registrar_rdap_url : Option String
  pub registry_updated_at : Option ℕ
  pub nameservers : Json
  pub dnssec_enabled : Json
  pub latest_source : Json
  pub last_successful_check_at : Option ℕ
  pub last_check_at : Option ℕ
  pub next_check_at : Option ℕ
  pub last_outcome : Option String
  pub monitor_enabled : Bool
  pub renewal_mode : Option String
  pub notes : Option String
  pub version : ℕ
  pub deleted_at : Option ℕ
  pub deleted_by_user_id : Option ℕ
  pub created_at : ℕ
  pub updated_at : ℕ
