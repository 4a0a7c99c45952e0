-- ===== src/Gates/Calls.antt =====
-- The types of domainsmanager_lookup/store.py that the two stores share, and the calls of the
-- gate half of the protocol `LookupStore`. A call carries the clock readings and tokens that the
-- method draws.
use domains_manager.Base.{ℕ, String, Bool, Option}

-- (protocol, endpoint)
abbrev pub Key : Type 0
Key = String × String

-- EndpointGateLease
pub record Lease : Type 0 where
  pub key : Key
  pub token : ℕ
  pub expires_at : ℕ

-- EndpointGateState
pub record GateState : Type 0 where
  pub blocked_until : Option ℕ
  pub lease_until : Option ℕ
  pub failure_count : ℕ

pub data Call : Type 0 where
  acquire : Key → (owner : String) → (token now ttl : ℕ) → Call
  inspect : Key → Call
  release : Lease → (succeeded : Bool) → (now : ℕ) → Call
  block : Lease → (now : ℕ) → (retry_after : Option ℕ) → (base maximum : ℕ) → Call
  renew : Lease → (now ttl : ℕ) → Call

pub data Reply : Type 0 where
  leased : Option Lease → Reply
  state : Option GateState → Reply
  done : Reply
  blocked : ℕ → Reply
  renewed : Bool → Reply
