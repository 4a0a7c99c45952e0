-- ===== src/Tests/LookupRuns.antt =====
-- Lookups at concrete inputs: an endpoint of RDAP that asks for a retry, and one of WHOIS that answers.
use domains_manager.Base.{
  ℕ, ◌+◌, ◌≡◌, ◌≢◌, refl, String, true, false, Option, none, some, [], ◌∷◌, ◌⊎◌, inl, arith,
  pair_eq, string_eq, nat_eq, eqb, str_eq, if◌then◌else◌,
}
use domains_manager.Base.Dict.{get, put}
use domains_manager.Gates.Memory
use domains_manager.Gates.Calls.{Key, Lease}
use domains_manager.Gates.Memory.{holds, state_of}
use domains_manager.Tasks.Service.{unsupported}
use domains_manager.Models.{text, null}
use domains_manager.Records.{empty}
use domains_manager.Lookup.{
  Protocol, rdap, whois, Response, RegistryEndpoint, NormalizedDomain, DomainInfo, LookupResult,
  Raised, upstream_limited, lookup_failed, is_lookup_error,
}
use domains_manager.Lookup.Effects.{returned, raised, Action, pure, raise, settle, next_of, ◌>>=◌}
use domains_manager.Lookup.Service.{DomainLookupService, failure_text}
use domains_manager.Lookup.Queries.{lookup}
use domains_manager.Lookup.Facade.{LookupOptions, contains, classify_error, lookup_names}
use domains_manager.Lookup.Ends.{EndsIn, Ends, Anything, Ends-pure, Ends-raise}
use domains_manager.Lookup.Finals.{IsDated, OnlyIf, Expects}
use domains_manager.Lookup.Answers.{Refused, lookup_answers}
use domains_manager.Lookup.Outcomes.{AreOutcomes, lookup_outcomes}
use domains_manager.Lookup.Misread.{misread}
use domains_manager.Lookup.RequestGate.{
  EndpointRequestGate, World, gate_store, beside, request, run,
}
use domains_manager.Lookup.RequestGate.Waits.{run_ends}
use domains_manager.Lookup.RequestGate.Conclusions.{IsConclusion, request-IsConclusion}
use domains_manager.Lookup.Stored.{CachedFields, Codec, fields_of, get_fresh, save}
use domains_manager.Lookup.Stored.RoundTrip.{ReadsBack, get_fresh-save}

abbrev domain : NormalizedDomain
domain = record {
  input_name = "profile.example";
  ascii_name = "profile.example";
  unicode_name = "profile.example";
  subdomain = none;
  domain_label = "profile";
  public_suffix = "example";
  registrable_domain = "profile.example";
  tld = "example";
}

abbrev endpoint : RegistryEndpoint
endpoint = record {
  key = "example";
  tld = "example";
  whois_server = some "whois.example";
  rdap_urls = "https://rdap.example" ∷ [];
  source = "iana";
  fetched_at = 0;
  expires_at = 1000;
}

abbrev response : Response
response = record {
  domain = "profile.example";
  protocol = whois;
  endpoint = "whois.example";
  body = "body";
  fetched_at = 40;
  expires_at = 90;
  status_code = none;
  content_type = some "text/plain";
  rdap_role = none;
}

abbrev info : DomainInfo
info = record {
  domain = "profile.example";
  registry_handle = none;
  registrar = none;
  statuses = [];
  dates = record {
    registered_at = none;
    expires_at = some 30;
    registry_expires_at = some 80;
    registrar_expires_at = some 30;
    updated_at = none;
  };
  nameservers = [];
  dnssec_enabled = none;
  source = "whois";
  source_url = none;
  registrar_rdap_url = none;
  expiration_status = "unknown";
  expiration_checked_at = none;
  fetched_at = some 40;
  parser_version = none;
}

-- The state is the time.
abbrev query : Protocol → NormalizedDomain → RegistryEndpoint → Action ℕ Response
query rdap d e = raise (upstream_limited "rdap" "https://rdap.example" (some 70))
query whois d e = pure response

abbrev service : DomainLookupService ℕ
service = record {
  normalize = λ name. returned domain;
  get_fresh = λ name p now role. pure none;
  save = λ r. pure tt;
  mark_unusable = λ r why. pure tt;
  get_fresh_endpoint = λ key now. pure none;
  save_endpoint = λ e. pure tt;
  discover = λ d. pure endpoint;
  query = query;
  query_related = none;
  parse = λ p r d. returned info;
  is_not_found_response = λ r. false;
  parser_version = "1";
  protocol_order = rdap ∷ whois ∷ [];
  clock = λ now. (now, now + 1);
  gate = none;
  endpoint_key = λ p e. "whois.example:43";
}

-- Nothing else is raised.
abbrev Other : Raised → Type 0
Other e = ⊥

query_Ends :
    (p : Protocol) (d : NormalizedDomain) (e : RegistryEndpoint)
    → Ends Anything (OnlyIf Other 70 is_lookup_error) (query p d e)
query_Ends rdap d e = Ends-raise _ ((omega arith, tt), inl refl)
query_Ends whois d e = Ends-pure response tt

service-Expects : Expects Other 70 service
service-Expects = record {
  get_fresh = λ name p now role. Ends-pure none tt;
  save = λ r. Ends-pure tt tt;
  mark_unusable = λ r why. Ends-pure tt tt;
  get_fresh_endpoint = λ key now. Ends-pure none tt;
  save_endpoint = λ e. Ends-pure tt tt;
  discover = λ d. Ends-pure endpoint tt;
  query = query_Ends;
  query_related = λ related e d url. absurd (ground arith);
  parse = λ p r d. tt;
  gate = λ run e p key m h. absurd (ground arith);
}

lookup_answers_example :
    EndsIn
      (λ (r : LookupResult).
        (service.normalize "profile.example" ≡ returned r.domain) × IsDated r.info)
      (λ e.
        (service.normalize "profile.example" ≡ raised e)
        ⊎ Refused Other 70 service service-Expects e)
      (lookup service "profile.example" false false 40).0
lookup_answers_example =
    lookup_answers Other 70 service service-Expects "profile.example" false false 40

abbrev options : LookupOptions
options = record { force_refresh = true; refresh_endpoint = false }

abbrev unchanged : String → String
unchanged s = s

abbrev foreign : (s : String) (until : Option ℕ) → ¬ Other (lookup_failed s until)
foreign s until h = h

lookup_outcomes_example :
    EndsIn
      (AreOutcomes Other 70 unchanged service service-Expects
        (λ name. tt)
        foreign
        options
        ("profile.example" ∷ []))
      Other
      (lookup_names unchanged service options ("profile.example" ∷ []) 40).0
lookup_outcomes_example =
    lookup_outcomes Other 70 unchanged service service-Expects (λ name. tt) foreign options
      ("profile.example" ∷ []) 40

misread_example :
    classify_error unchanged (failure_text domain "whois 查询失败：temporary timeout") none ≡ unsupported
unfolding failure_text contains
misread_example = misread unchanged domain "whois 查询失败：temporary timeout" refl refl refl refl

-- Another process holds the gate until 100.
abbrev key : Key
key = ("whois", "whois.example:43")

abbrev other_lease : Lease
other_lease = record { key = key; token = 3; expires_at = 100 }

abbrev waiting : World (Unit {0})
waiting = record {
  gates =
      (
        key,
        (
          record { blocked_until = none; lease_until = some 100; failure_count = 1 },
          some other_lease,
        ),
      )
      ∷ [];
  now = 40;
  next_token = 7;
  rest = tt;
}

abbrev gate : EndpointRequestGate
gate = record {
  owner = "w1";
  lease_duration = 60;
  retry_base = 10;
  retry_max = 100;
  busy_poll = 25;
}

abbrev operation : Action (World (Unit {0})) ℕ
operation = pure 5

run_ends_example : (run gate_store gate 4 0 key operation waiting).0 ≢ returned none
unfolding get
run_ends_example = run_ends gate 0 key operation 3 waiting (omega arith)

abbrev limited : Action (World (Unit {0})) ℕ
limited = raise (upstream_limited "whois" "whois.example" (some 90))

request-IsConclusion_example :
    let (a, v) = beside gate_store gate 1 other_lease limited waiting in
    let (r, w') = request gate_store gate 1 key limited other_lease waiting in
    IsConclusion key v.now (state_of (get key v.gates)) a r (get key w'.gates)
unfolding get put beside ◌>>=◌ settle next_of Memory.step
request-IsConclusion_example = request-IsConclusion gate 1 limited other_lease waiting refl

-- The times of the response, and its payload.
abbrev fields : CachedFields
fields =
    ("domain", text "profile.example")
    ∷ ("protocol", text "whois")
    ∷ ("endpoint", text "whois.example")
    ∷ ("body", text "body")
    ∷ ("fetched_at", text "40")
    ∷ ("expires_at", text "90")
    ∷ ("status_code", null)
    ∷ ("content_type", text "text/plain")
    ∷ ("rdap_role", null)
    ∷ []

abbrev codec : Codec
codec = record {
  to_iso = λ t. if eqb t 40 then "40" else "90";
  from_iso = λ s. if str_eq s "40" then some 40 else some 90;
  pack = λ d. "packed";
  unpack = λ s. some fields;
  digest = λ d. "digest";
}

codec-ReadsBack : ReadsBack codec response
unfolding fields_of
codec-ReadsBack = record {
  fetched_at = refl;
  expires_at = refl;
  payload = (fields, refl, λ k. refl);
}

get_fresh-save_example :
    get_fresh codec "profile.example" whois 60 none (save codec 7 response empty) ≡ some response
unfolding get
get_fresh-save_example =
    get_fresh-save codec 7 60 response empty codec-ReadsBack refl refl (λ e. ground arith) refl
      (omega arith)
