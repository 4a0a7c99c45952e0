-- ===== src/Lookup.antt =====
-- The lookup of a domain (domainsmanager_lookup): the values of _internal/models, the exceptions of
-- _internal/errors.py, and the classification of _internal/lifecycle.py.
pub mod Effects
pub mod Service
pub mod Queries
pub mod Ends
pub mod Finals
pub mod Hits
pub mod Answers
pub mod Facade
pub mod Outcomes
pub mod Misread
pub mod RequestGate
pub mod Stored
pub mod StatusCodes
use Prim.Native.String.{◌++◌ as str_append}
use domains_manager.Base.{
  ℕ, String, Bool, true, false, Option, none, some, List, ltb, if◌then◌else◌, some_and,
}

pub data Protocol : Type 0 where
  rdap whois : Protocol

abbrev pub protocol_name : Protocol → String
protocol_name rdap = "rdap"
protocol_name whois = "whois"

abbrev pub is_rdap : Protocol → Bool
is_rdap rdap = true
is_rdap whois = false

pub data Role : Type 0 where
  registry registrar : Role

-- RawLookupResponse
pub record Response : Type 0 where
  pub domain : String
  pub protocol : Protocol
  pub endpoint : String
  pub body : String
  pub fetched_at : ℕ
  pub expires_at : ℕ
  pub status_code : Option ℕ
  pub content_type : Option String
  pub rdap_role : Option Role

pub record RegistryEndpoint : Type 0 where
  pub key : String
  pub tld : String
  pub whois_server : Option String
  pub rdap_urls : List String
  pub source : String
  pub fetched_at : ℕ
  pub expires_at : ℕ

pub record NormalizedDomain : Type 0 where
  pub input_name : String
  pub ascii_name : String
  pub unicode_name : String
  pub subdomain : Option String
  pub domain_label : String
  pub public_suffix : String
  pub registrable_domain : String
  pub tld : String

pub record RegistrarInfo : Type 0 where
  pub name : Option String
  pub iana_id : Option ℕ
  pub url : Option String
  pub abuse_email : Option String
  pub abuse_phone : Option String

pub record DomainDates : Type 0 where
  pub registered_at : Option ℕ
  pub expires_at : Option ℕ
  pub registry_expires_at : Option ℕ
  pub registrar_expires_at : Option ℕ
  pub updated_at : Option ℕ

-- `dnssec_enabled` is the one field of DNSSECInfo.
pub record DomainInfo : Type 0 where
  pub domain : String
  pub registry_handle : Option String
  pub registrar : Option RegistrarInfo
  pub statuses : List String
  pub dates : DomainDates
  pub nameservers : List String
  pub dnssec_enabled : Option Bool
  pub source : String
  pub source_url : Option String
  pub registrar_rdap_url : Option String
  pub expiration_status : String
  pub expiration_checked_at : Option ℕ
  pub fetched_at : Option ℕ
  pub parser_version : Option String

pub record LookupResult : Type 0 where
  pub domain : NormalizedDomain
  pub info : DomainInfo
  pub response : Response
  pub registrar_response : Option Response
  pub response_cache_hit : Bool
  pub endpoint_cache_hit : Bool

-- What a call may raise, with its text: the subclasses of DomainManagerError that are told apart
-- and the others, the exceptions that the service names, any other Exception, and a BaseException
-- that is none.
pub data Raised : Type 0 where
  upstream_limited : (protocol endpoint : String) → Option ℕ → Raised
  lookup_failed : String → Option ℕ → Raised
  normalization_error manager_error value_error type_error os_error http_error timed_out :
      String → Raised
  other_exception cancelled : String → Raised

-- str(exc)
abbrev pub exception_text : Raised → String
exception_text (upstream_limited protocol endpoint until) =
    str_append protocol (str_append " endpoint " (str_append endpoint " rate_limited"))
exception_text (lookup_failed text until) = text
exception_text (normalization_error text) = text
exception_text (manager_error text) = text
exception_text (value_error text) = text
exception_text (type_error text) = text
exception_text (os_error text) = text
exception_text (http_error text) = text
exception_text (timed_out text) = text
exception_text (other_exception text) = text
exception_text (cancelled text) = text

-- An Exception, as `suppress(Exception)` drops it.
abbrev pub is_exception : Raised → Bool
is_exception (cancelled text) = false
is_exception _ = true

-- (DomainManagerError, ValueError, TypeError)
abbrev pub is_parse_error : Raised → Bool
is_parse_error (os_error text) = false
is_parse_error (http_error text) = false
is_parse_error (timed_out text) = false
is_parse_error (other_exception text) = false
is_parse_error (cancelled text) = false
is_parse_error _ = true

-- (DomainManagerError, httpx.HTTPError, OSError, TimeoutError, ValueError, TypeError)
abbrev pub is_lookup_error : Raised → Bool
is_lookup_error (other_exception text) = false
is_lookup_error (cancelled text) = false
is_lookup_error _ = true

-- The same without TypeError.
abbrev pub is_discovery_error : Raised → Bool
is_discovery_error (type_error text) = false
is_discovery_error (other_exception text) = false
is_discovery_error (cancelled text) = false
is_discovery_error _ = true

pub data ExpirationStatus : Type 0 where
  active grace_period expired released unknown : ExpirationStatus

abbrev pub status_value : ExpirationStatus → String
status_value active = "active"
status_value grace_period = "grace_period"
status_value expired = "expired"
status_value released = "released"
status_value unknown = "unknown"

dated_status : Option ℕ → Option ℕ → ℕ → ExpirationStatus
dated_status last none now = unknown
dated_status last (some until) now =
    if ltb now until
    then active
    else if some_and last (λ later. ltb now later)
    then grace_period
    else expired

unfoldable pub determine_expiration_status : Bool → Option ℕ → Option ℕ → ℕ → ExpirationStatus
unfolding dated_status
determine_expiration_status exists last first now =
    if exists then dated_status last first now else released
