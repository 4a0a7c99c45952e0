-- ===== src/Lookup/Facade.antt =====
-- DomainLookup of domainsmanager_lookup/facade.py, and the outcomes of domainsmanager_lookup/types.py.
use Prim.Native.Char.{code}
use domains_manager.Base.{
  ℕ, String, Bool, true, false, ◌&&◌, ◌||◌, Option, none, some, List, [], ◌∷◌, eqb, if◌then◌else◌,
  is_none, is_some,
}
use domains_manager.Tasks.Service.{
  ErrorCode, invalid_domain, not_found, unsupported, rate_limited, temporary_failure,
  unexpected_response,
}
use domains_manager.Domains.Service.{Identity}
use domains_manager.Lookup.{
  NormalizedDomain, RegistrarInfo, DomainInfo, LookupResult, normalization_error, lookup_failed,
  value_error,
}
use domains_manager.Lookup.Effects.{
  Completion, returned, raised, Action, pure, raise, settle, ◌>>=◌,
}
use domains_manager.Lookup.Service.{DomainLookupService}
use domains_manager.Lookup.Queries.{lookup}

-- DomainSnapshot. Its registrar has the fields of RegistrarInfo.
pub record DomainSnapshot : Type 0 where
  pub domain : String
  pub registrar : Option RegistrarInfo
  pub statuses : List String
  pub registered_at : Option ℕ
  pub expires_at : Option ℕ
  pub registry_expires_at : Option ℕ
  pub registrar_expires_at : Option ℕ
  pub expiration_status : String
  pub expiration_checked_at : Option ℕ
  pub updated_at : Option ℕ
  pub nameservers : List String
  pub dnssec_enabled : Option Bool
  pub source : String
  pub source_url : Option String
  pub registrar_rdap_url : Option String
  pub fetched_at : Option ℕ

pub record LookupOptions : Type 0 where
  pub force_refresh : Bool
  pub refresh_endpoint : Bool

pub record LookupOutcome : Type 0 where
  pub input_name : String
  pub identity : Option Identity
  pub snapshot : Option DomainSnapshot
  pub error_code : Option ErrorCode
  pub error_message : Option String
  pub retry_after : Option ℕ

-- `validate_result` lets an outcome pass that has a snapshot or an error, and not both.
abbrev pub has_one_result : LookupOutcome → Bool
has_one_result o = if is_none o.snapshot then is_some o.error_code else is_none o.error_code

-- The constructor, with its validator.
abbrev pub validated : {W : Type 0} → LookupOutcome → Action W LookupOutcome
validated o =
    if has_one_result o
    then pure o
    else raise (value_error "lookup outcome must contain either a snapshot or an error")

-- s.startswith(t)
unfoldable pub begins_with : String → String → Bool
begins_with String.[] s = true
begins_with (String.◌∷◌ c t) String.[] = false
begins_with (String.◌∷◌ c t) (String.◌∷◌ d s) = eqb (code c) (code d) && begins_with t s

-- t in s
unfoldable pub contains : String → String → Bool
unfolding begins_with
contains t String.[] = begins_with t String.[]
contains t (String.◌∷◌ c s) = begins_with t (String.◌∷◌ c s) || contains t s

-- `_classify_error`, of the text of the error under `casefold`.
unfoldable pub classify_text : String → ErrorCode
classify_text m =
    if contains "not_found" m || (contains "not found" m || contains "未注册" m)
    then not_found
    else if contains "rate_limited" m || (contains "rate limit" m || contains "限流" m)
    then rate_limited
    else if contains "不支持" m || (contains "没有可用" m || contains "profile" m)
    then unsupported
    else if contains "temporary" m || (contains "timeout" m || contains "超时" m)
    then temporary_failure
    else unexpected_response

unfoldable pub classify_error : (String → String) → String → Option ℕ → ErrorCode
classify_error casefold text (some until) = rate_limited
classify_error casefold text none = classify_text (casefold text)

abbrev pub domain_identity : NormalizedDomain → Identity
domain_identity d = record {
  ascii_name = d.ascii_name;
  unicode_name = d.unicode_name;
  registrable_domain = d.registrable_domain;
  public_suffix = d.public_suffix;
  tld = d.tld;
}

abbrev pub snapshot_of : DomainInfo → DomainSnapshot
snapshot_of info = record {
  domain = info.domain;
  registrar = info.registrar;
  statuses = info.statuses;
  registered_at = info.dates.registered_at;
  expires_at = info.dates.expires_at;
  registry_expires_at = info.dates.registry_expires_at;
  registrar_expires_at = info.dates.registrar_expires_at;
  expiration_status = info.expiration_status;
  expiration_checked_at = info.expiration_checked_at;
  updated_at = info.dates.updated_at;
  nameservers = info.nameservers;
  dnssec_enabled = info.dnssec_enabled;
  source = info.source;
  source_url = info.source_url;
  registrar_rdap_url = info.registrar_rdap_url;
  fetched_at = info.fetched_at;
}

module _ (casefold : String → String) where
  abbrev pub outcome_of : {W : Type 0} → String → Completion LookupResult → Action W LookupOutcome
  outcome_of name (returned result) = validated (record {
    input_name = name;
    identity = some (domain_identity result.domain);
    snapshot = some (snapshot_of result.info);
    error_code = none;
    error_message = none;
    retry_after = none;
  })
  outcome_of name (raised (normalization_error text)) = validated (record {
    input_name = name;
    identity = none;
    snapshot = none;
    error_code = some invalid_domain;
    error_message = some text;
    retry_after = none;
  })
  outcome_of name (raised (lookup_failed text until)) = validated (record {
    input_name = name;
    identity = none;
    snapshot = none;
    error_code = some (classify_error casefold text until);
    error_message = some text;
    retry_after = until;
  })
  outcome_of name (raised e) = raise e

  unfoldable pub lookup_one :
      {W : Type 0} → DomainLookupService W → LookupOptions → String → Action W LookupOutcome
  lookup_one s options name =
      settle (lookup s name options.force_refresh options.refresh_endpoint) (outcome_of name)

  -- DomainLookup.lookup: the outcomes in the order of the names.
  unfoldable pub lookup_names :
      {W : Type 0}
      → DomainLookupService W
      → LookupOptions
      → List String
      → Action W (List LookupOutcome)
  unfolding lookup_one
  lookup_names s options [] = pure []
  lookup_names s options (name ∷ names) = do
    first ← lookup_one s options name
    rest ← lookup_names s options names
    pure (first ∷ rest)
