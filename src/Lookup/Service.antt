-- ===== src/Lookup/Service.antt =====
-- DomainLookupService of domainsmanager_lookup/_internal/services/domain_lookup.py, over what it is
-- constructed with.
use Prim.Native.String.{◌++◌ as str_append}
use domains_manager.Base.{
  ℕ, String, Bool, true, false, ◌&&◌, not, Option, none, some, List, [], ◌∷◌, min, str_eq,
  if◌then◌else◌,
}
use domains_manager.Lookup.{
  Protocol, rdap, whois, protocol_name, is_rdap, Role, registrar, Response, RegistryEndpoint,
  NormalizedDomain, DomainInfo, LookupResult, Raised, upstream_limited, timed_out, exception_text,
  is_lookup_error, status_value, determine_expiration_status,
}
use domains_manager.Lookup.Effects.{
  Completion, returned, raised, Action, pure, raise, call, settle, ◌>>=◌, ◌>>◌,
}

-- The caches, the discovery of endpoints, the clients and the parsers of the protocols, the clock
-- and the gate. The client of RDAP has `query_related` if it is an RdapClient, and the client of
-- WHOIS is none. A response cache without `mark_unusable` is one where it does nothing.
pub record DomainLookupService (W : Type 0) : Type 0 where
  pub normalize : String → Completion NormalizedDomain
  pub get_fresh : String → Protocol → ℕ → Option Role → Action W (Option Response)
  pub save : Response → Action W (Unit {0})
  pub mark_unusable : Response → String → Action W (Unit {0})
  pub get_fresh_endpoint : String → ℕ → Action W (Option RegistryEndpoint)
  pub save_endpoint : RegistryEndpoint → Action W (Unit {0})
  pub discover : NormalizedDomain → Action W RegistryEndpoint
  pub query : Protocol → NormalizedDomain → RegistryEndpoint → Action W Response
  pub query_related : Option (NormalizedDomain → String → Action W Response)
  pub parse : Protocol → Response → NormalizedDomain → Completion DomainInfo
  pub is_not_found_response : Response → Bool
  pub parser_version : String
  pub protocol_order : List Protocol
  pub clock : W → ℕ × W
  pub gate :
      Option (String → String → Action W (Response × DomainInfo) → Action W (Response × DomainInfo))
  pub endpoint_key : Protocol → RegistryEndpoint → String

-- a or b
abbrev pub or_next : Option ℕ → Option ℕ → Option ℕ
or_next none b = b
or_next (some a) b = some a

-- The dates with the registrar's, as `_enrich_rdap` updates them.
abbrev pub merged : DomainInfo → DomainInfo → DomainInfo
merged registry_info registrar_info = record registry_info {
  dates = record (registry_info.dates) {
    registrar_expires_at = or_next registrar_info.dates.registrar_expires_at (
        or_next registrar_info.dates.expires_at
          (or_next registry_info.dates.registrar_expires_at registry_info.dates.expires_at));
  };
}

-- "; ".join(errors)
unfoldable pub join : List String → String
join [] = ""
join (e ∷ []) = e
join (e ∷ (f ∷ es)) = str_append e (str_append "; " (join (f ∷ es)))

-- f"查询 {domain.registrable_domain} 失败：{detail}"
unfoldable pub failure_text : NormalizedDomain → String → String
failure_text d detail =
    str_append "查询 " (str_append d.registrable_domain (str_append " 失败：" detail))

-- "; ".join(errors) or "没有配置查询协议"
abbrev pub detail_of : List String → String
detail_of errors = let joined = join errors in if str_eq joined "" then "没有配置查询协议" else joined

abbrev pub reason_of : Raised → String
reason_of (timed_out text) = "temporary timeout"
reason_of e = exception_text e

-- What the loop over the protocols appends to `errors` and to `retry_times`.
abbrev pub error_of : Protocol → Raised → String
error_of p (upstream_limited protocol endpoint until) =
    exception_text (upstream_limited protocol endpoint until)
error_of p e = str_append (protocol_name p) (str_append " 查询失败：" (reason_of e))

abbrev pub retry_times_of : Raised → List ℕ
retry_times_of (upstream_limited protocol endpoint (some until)) = until ∷ []
retry_times_of _ = []

-- min(retry_times) if retry_times else None
unfoldable pub least : List ℕ → Option ℕ
least [] = none
least (t ∷ ts) = elim (least ts) [ none ↦ some t | some u ↦ some (min t u) ]

-- not endpoint.rdap_urls, not endpoint.whois_server, the other way round
abbrev pub has_endpoint : Protocol → RegistryEndpoint → Bool
has_endpoint rdap e = elim e.rdap_urls [ [] ↦ false | u ∷ us ↦ true ]
has_endpoint whois e = elim e.whois_server [ none ↦ false | some server ↦ not (str_eq server "") ]

-- The search of the cache ends with a result, or with the errors so far.
pub data Search : Type 0 where
  hit : LookupResult → Search
  missed : List String → Search

module _ {W : Type 0} (s : DomainLookupService W) where
  abbrev pub tick : Action W ℕ
  tick w = (returned (s.clock w).0, (s.clock w).1)

  unfoldable pub with_expiration_status : DomainInfo → Action W DomainInfo
  with_expiration_status info = do
    checked_at ← tick
    pure (record info {
      expiration_status = status_value (
          determine_expiration_status true info.dates.registry_expires_at
            info.dates.registrar_expires_at checked_at);
      expiration_checked_at = some checked_at;
    })

  abbrev released_info : NormalizedDomain → Response → ℕ → DomainInfo
  released_info d r checked_at = record {
    domain = d.registrable_domain;
    registry_handle = none;
    registrar = none;
    statuses = [];
    dates = record {
      registered_at = none;
      expires_at = none;
      registry_expires_at = none;
      registrar_expires_at = none;
      updated_at = none;
    };
    nameservers = [];
    dnssec_enabled = none;
    source = "rdap";
    source_url = some r.endpoint;
    registrar_rdap_url = none;
    expiration_status = "released";
    expiration_checked_at = some checked_at;
    fetched_at = some r.fetched_at;
    parser_version = some s.parser_version;
  }

  unfoldable pub parse_response : Protocol → Response → NormalizedDomain → Action W DomainInfo
  parse_response p r d =
      if is_rdap p && s.is_not_found_response r
      then tick >>= (λ checked_at. pure (released_info d r checked_at))
      else call (s.parse p r d)

  -- The body of the `try` of `_enrich_rdap`.
  unfoldable pub fetched_related :
      (NormalizedDomain → String → Action W Response)
      → NormalizedDomain
      → String
      → Option Response
      → Action W Response
  fetched_related related d url (some r) = pure r
  fetched_related related d url none = do r ← related d url; s.save r; pure r

  unfoldable pub registrar_document :
      (NormalizedDomain → String → Action W Response)
      → NormalizedDomain
      → String
      → Action W (Response × DomainInfo)
  unfolding fetched_related
  registrar_document related d url = do
    now ← tick
    cached ← s.get_fresh d.registrable_domain rdap now (some registrar)
    response ← fetched_related related d url cached
    info ← call (s.parse rdap response d)
    pure (response, info)

  abbrev pub alone : DomainInfo → Action W (DomainInfo × Option Response)
  alone info = do updated ← with_expiration_status info; pure (updated, none)

  abbrev pub enriched :
      DomainInfo → Completion (Response × DomainInfo) → Action W (DomainInfo × Option Response)
  enriched info (returned (response, registrar_info)) = do
    updated ← with_expiration_status (merged info registrar_info)
    pure (updated, some response)
  enriched info (raised e) = if is_lookup_error e then alone info else raise e

  unfoldable pub enrich_rdap :
      NormalizedDomain → DomainInfo → Action W (DomainInfo × Option Response)
  enrich_rdap d info =
      if str_eq info.expiration_status "released"
      then pure (info, none)
      else elim info.registrar_rdap_url [
        | none ↦ alone info
        | some url ↦ elim s.query_related [
          | none ↦ alone info
          | some related ↦ settle (registrar_document related d url) (enriched info)
        ]
      ]

  unfoldable pub finalize_lookup :
      Protocol → NormalizedDomain → DomainInfo → Action W (DomainInfo × Option Response)
  finalize_lookup rdap d info = enrich_rdap d info
  finalize_lookup whois d info = alone info
