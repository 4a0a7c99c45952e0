-- ===== src/Lookup/Queries.antt =====
-- `lookup` of DomainLookupService (domainsmanager_lookup/_internal/services/domain_lookup.py): the
-- search of the cache, the endpoint, and the queries by protocol until one succeeds.
use Prim.Native.String.{◌++◌ as str_append}
use domains_manager.Base.{
  ℕ, String, Bool, true, false, ◌&&◌, Option, none, some, List, [], ◌∷◌, ◌++◌, if◌then◌else◌,
  is_some,
}
use domains_manager.Lookup.{
  Protocol, protocol_name, is_rdap, Role, registry, Response, RegistryEndpoint, NormalizedDomain,
  DomainInfo, LookupResult, Raised, lookup_failed, exception_text, is_parse_error, is_lookup_error,
  is_discovery_error,
}
use domains_manager.Lookup.Effects.{
  Completion, returned, raised, Action, pure, raise, call, settle, ◌>>=◌, ◌>>◌, suppress,
}
use domains_manager.Lookup.Service.{
  DomainLookupService, Search, hit, missed, tick, parse_response, finalize_lookup, has_endpoint,
  join, failure_text, detail_of, reason_of, error_of, retry_times_of, least,
}

-- f"{protocol} 缓存解析失败：{exc}"
abbrev pub cache_error_of : Protocol → Raised → String
cache_error_of p e = str_append (protocol_name p) (str_append " 缓存解析失败：" (exception_text e))

abbrev pub role_of : Protocol → Option Role
role_of p = if is_rdap p then some registry else none

module _ {W : Type 0} (s : DomainLookupService W) where
  abbrev pub Gate : Type 0
  Gate = String → String → Action W (Response × DomainInfo) → Action W (Response × DomainInfo)

  -- Without a response of the registry, RDAP takes one that has no role.
  abbrev pub second_read :
      NormalizedDomain → Protocol → Option Response → Action W (Option Response)
  second_read d p (some r) = pure (some r)
  second_read d p none =
      if is_rdap p
      then tick s >>= (λ now. s.get_fresh d.registrable_domain p now none)
      else pure none

  unfoldable pub read_cached : NormalizedDomain → Protocol → Action W (Option Response)
  read_cached d p = do
    now ← tick s
    first ← s.get_fresh d.registrable_domain p now (role_of p)
    second_read d p first

  unfoldable pub cached_result : NormalizedDomain → Protocol → Response → Action W LookupResult
  cached_result d p r = do
    parsed ← parse_response s p r d
    final ← finalize_lookup s p d parsed
    pure (record {
      domain = d;
      info = final.0;
      response = r;
      registrar_response = final.1;
      response_cache_hit = true;
      endpoint_cache_hit = false;
    })

  abbrev pub kept_or :
      Protocol
      → (List String → Action W Search)
      → List String
      → Completion LookupResult
      → Action W Search
  kept_or p rest errors (returned result) = pure (hit result)
  kept_or p rest errors (raised e) =
      if is_parse_error e then rest (errors ++ (cache_error_of p e ∷ [])) else raise e

  abbrev pub tried :
      NormalizedDomain
      → Protocol
      → (List String → Action W Search)
      → List String
      → Option Response
      → Action W Search
  tried d p rest errors none = rest errors
  tried d p rest errors (some r) = settle (cached_result d p r) (kept_or p rest errors)

  unfoldable pub search_cache : NormalizedDomain → List Protocol → List String → Action W Search
  search_cache d [] errors = pure (missed errors)
  search_cache d (p ∷ ps) errors = do
    response ← read_cached d p
    tried d p (search_cache d ps) errors response

  -- `_get_endpoint`. The second reading is the one under the lock of the key.
  abbrev pub cached_endpoint : String → Bool → Action W (Option RegistryEndpoint)
  cached_endpoint key refresh =
      if refresh then pure none else (tick s >>= (λ now. s.get_fresh_endpoint key now))

  abbrev pub discovered :
      NormalizedDomain → Option RegistryEndpoint → Action W (RegistryEndpoint × Bool)
  discovered d (some e) = pure (e, true)
  discovered d none = do e ← s.discover d; s.save_endpoint e; pure (e, false)

  abbrev pub read_again :
      String
      → NormalizedDomain
      → Bool
      → Option RegistryEndpoint
      → Action W (RegistryEndpoint × Bool)
  read_again key d refresh (some e) = pure (e, true)
  read_again key d refresh none = cached_endpoint key refresh >>= discovered d

  unfoldable pub get_endpoint :
      String → NormalizedDomain → Bool → Action W (RegistryEndpoint × Bool)
  get_endpoint key d refresh = cached_endpoint key refresh >>= read_again key d refresh

  abbrev pub marked : Response → Completion DomainInfo → Action W (Response × DomainInfo)
  marked r (returned info) = pure (r, info)
  marked r (raised e) =
      if is_parse_error e
      then suppress (s.mark_unusable r "response parsing failed") >> raise e
      else raise e

  unfoldable pub query_and_parse :
      Protocol → NormalizedDomain → RegistryEndpoint → Action W (Response × DomainInfo)
  query_and_parse p d e = do r ← s.query p d e; settle (parse_response s p r d) (marked r)

  -- The client of RDAP takes the gate itself, if it is an RdapClient.
  abbrev pub through :
      Option Gate
      → Protocol
      → NormalizedDomain
      → RegistryEndpoint
      → Action W (Response × DomainInfo)
  through none p d e = query_and_parse p d e
  through (some run) p d e =
      if is_rdap p && is_some s.query_related
      then query_and_parse p d e
      else run (protocol_name p) (s.endpoint_key p e) (query_and_parse p d e)

  unfoldable pub gated_query :
      Protocol → NormalizedDomain → RegistryEndpoint → Action W (Response × DomainInfo)
  gated_query p d e = through s.gate p d e

  unfoldable pub query_one :
      NormalizedDomain → RegistryEndpoint → Bool → Protocol → Action W LookupResult
  query_one d e known p = do
    answer ← gated_query p d e
    suppress (s.save answer.0)
    final ← finalize_lookup s p d answer.1
    pure (record {
      domain = d;
      info = final.0;
      response = answer.0;
      registrar_response = final.1;
      response_cache_hit = false;
      endpoint_cache_hit = known;
    })

  abbrev pub passed :
      Protocol
      → (List String → List ℕ → Action W LookupResult)
      → List String
      → List ℕ
      → Completion LookupResult
      → Action W LookupResult
  passed p rest errors times (returned result) = pure result
  passed p rest errors times (raised e) =
      if is_lookup_error e
      then rest (errors ++ (error_of p e ∷ [])) (times ++ retry_times_of e)
      else raise e

  unfoldable pub query_all :
      NormalizedDomain
      → RegistryEndpoint
      → Bool
      → List Protocol
      → List String
      → List ℕ
      → Action W LookupResult
  query_all d e known [] errors times =
      raise (lookup_failed (failure_text d (detail_of errors)) (least times))
  query_all d e known (p ∷ ps) errors times =
      if has_endpoint p e
      then settle (query_one d e known p) (passed p (query_all d e known ps) errors times)
      else query_all d e known ps errors times

  -- f"端点发现失败：{reason}"
  abbrev pub discovery_text : NormalizedDomain → List String → Raised → String
  discovery_text d errors x =
      failure_text d (join (errors ++ (str_append "端点发现失败：" (reason_of x) ∷ [])))

  abbrev pub queried :
      NormalizedDomain → List String → Completion (RegistryEndpoint × Bool) → Action W LookupResult
  queried d errors (returned (e, known)) = query_all d e known s.protocol_order errors []
  queried d errors (raised x) =
      if is_discovery_error x
      then raise (lookup_failed (discovery_text d errors x) none)
      else raise x

  abbrev pub searched : NormalizedDomain → Bool → Search → Action W LookupResult
  searched d refresh (hit result) = pure result
  searched d refresh (missed errors) =
      settle (get_endpoint d.public_suffix d refresh) (queried d errors)

  abbrev pub named :
      NormalizedDomain → (force_refresh refresh_endpoint : Bool) → Action W LookupResult
  named d force refresh =
      (if force then pure (missed []) else search_cache d s.protocol_order [])
      >>= searched d refresh

  unfoldable pub lookup : String → (force_refresh refresh_endpoint : Bool) → Action W LookupResult
  lookup name force refresh = do d ← call (s.normalize name); named d force refresh
