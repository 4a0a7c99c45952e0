-- ===== src/Lookup/Stored.antt =====
-- StoredDomainResponseCache of domainsmanager_lookup/_internal/cache/stored.py, over the records of the
-- in-memory store, with the payloads of _internal/cache/serialization.py.
pub mod RoundTrip
use Prim.Native.String.{◌++◌ as str_append}
use domains_manager.Base.{
  ℕ, ◌<◌, ◌≡◌, refl, ◌∙◌, ap, String, Bool, true, false, ◌&&◌, Option, none, some, List, [], ◌∷◌,
  eqb, leb, str_eq, if◌then◌else◌, none_or, is_some, arith, string_eq, nat_eq, pair_eq,
}
use domains_manager.Base.Dict.{Dict, get, put, get-put_self}
use domains_manager.Models.{Json, null, number, text}
use domains_manager.Records.{
  Key, Stored, Store, get_current, is_newer, kept, head_of, publish, mark_unusable,
}
use domains_manager.Lookup.{
  Protocol, rdap, whois, protocol_name, Role, registry, registrar, Response,
}

abbrev pub CachedFields : Type 0
CachedFields = Dict String Json

-- What the standard library supplies: the text of a time in UTC and its reading, `json.dumps` and
-- `gzip.compress`, what undoes them on an object, and the digest.
pub record Codec : Type 0 where
  pub to_iso : ℕ → String
  pub from_iso : String → Option ℕ
  pub pack : CachedFields → String
  pub unpack : String → Option CachedFields
  pub digest : CachedFields → String

abbrev pub text_json : Option String → Json
text_json none = null
text_json (some s) = text s

abbrev pub number_json : Option ℕ → Json
number_json none = null
number_json (some n) = number n

abbrev pub role_name : Role → String
role_name registry = "registry"
role_name registrar = "registrar"

abbrev pub role_json : Option Role → Json
role_json none = null
role_json (some r) = text (role_name r)

-- f"response:{protocol}:v1"
abbrev pub namespace : Protocol → String
namespace p = str_append "response:" (str_append (protocol_name p) ":v1")

-- f"{domain}:{rdap_role or 'default'}"
abbrev pub cache_key : String → Option Role → String
cache_key domain none = str_append domain ":default"
cache_key domain (some r) = str_append domain (str_append ":" (role_name r))

abbrev pub key_of : String → Protocol → Option Role → Key
key_of domain p role = (namespace p, cache_key domain role)

-- What a field of a payload holds. A value of another type is refused, also where pydantic would
-- convert it.
abbrev pub text_in : Option Json → Option String
text_in (some (text s)) = some s
text_in _ = none

abbrev pub optional_text_in : Option Json → Option (Option String)
optional_text_in none = some none
optional_text_in (some null) = some none
optional_text_in (some (text s)) = some (some s)
optional_text_in _ = none

abbrev pub optional_number_in : Option Json → Option (Option ℕ)
optional_number_in none = some none
optional_number_in (some null) = some none
optional_number_in (some (number n)) = some (some n)
optional_number_in _ = none

abbrev pub protocol_in : Option String → Option Protocol
protocol_in none = none
protocol_in (some s) =
    if str_eq s "rdap" then some rdap else if str_eq s "whois" then some whois else none

abbrev pub role_in : Option (Option String) → Option (Option Role)
role_in none = none
role_in (some none) = some none
role_in (some (some s)) =
    if str_eq s "registry"
    then some (some registry)
    else if str_eq s "registrar"
    then some (some registrar)
    else none

infixl 5 ◌>>=◌
abbrev ◌>>=◌ : {A B : Type 0} → Option A → (A → Option B) → Option B
none >>= f = none
some a >>= f = f a

module _ (c : Codec) where
  unfoldable pub fields_of : Response → CachedFields
  fields_of r =
      ("domain", text r.domain)
      ∷ ("protocol", text (protocol_name r.protocol))
      ∷ ("endpoint", text r.endpoint)
      ∷ ("body", text r.body)
      ∷ ("fetched_at", text (c.to_iso r.fetched_at))
      ∷ ("expires_at", text (c.to_iso r.expires_at))
      ∷ ("status_code", number_json r.status_code)
      ∷ ("content_type", text_json r.content_type)
      ∷ ("rdap_role", role_json r.rdap_role)
      ∷ []

  -- `save`, with the identifier that `uuid4` returned.
  unfoldable pub record_of : ℕ → Response → Stored
  record_of id r = record {
    record_id = id;
    key = key_of r.domain r.protocol r.rdap_role;
    schema_version = 1;
    payload = c.pack (fields_of r);
    payload_codec = "json+gzip";
    content_hash = c.digest (fields_of r);
    observed_at = r.fetched_at;
    fresh_until = r.expires_at;
    stale_until = none;
    retry_after = none;
    record_kind = "success";
    protocol = some (protocol_name r.protocol);
    endpoint = some r.endpoint;
    status_code = r.status_code;
  }

  unfoldable pub save : ℕ → Response → Store → Store
  save id r s = publish (record_of id r) s

  unfoldable pub time_in : Option Json → Option ℕ
  time_in field = do at ← text_in field; c.from_iso at

  unfoldable pub response_in : CachedFields → Option Response
  unfolding time_in
  response_in fields = do
    domain ← text_in (get "domain" fields)
    protocol ← protocol_in (text_in (get "protocol" fields))
    endpoint ← text_in (get "endpoint" fields)
    body ← text_in (get "body" fields)
    fetched_at ← time_in (get "fetched_at" fields)
    expires_at ← time_in (get "expires_at" fields)
    status_code ← optional_number_in (get "status_code" fields)
    content_type ← optional_text_in (get "content_type" fields)
    role ← role_in (optional_text_in (get "rdap_role" fields))
    some (record {
      domain = domain;
      protocol = protocol;
      endpoint = endpoint;
      body = body;
      fetched_at = fetched_at;
      expires_at = expires_at;
      status_code = status_code;
      content_type = content_type;
      rdap_role = role;
    })

  -- `_decode`; where it raises there is no response.
  unfoldable pub decode_record : Stored → Option Response
  unfolding response_in
  decode_record r =
      if eqb r.schema_version 1 && str_eq r.payload_codec "json+gzip"
      then (c.unpack r.payload >>= response_in)
      else none

  abbrev fresh_response : ℕ → Option Stored → Option Response
  fresh_response now none = none
  fresh_response now (some r) = if leb r.fresh_until now then none else decode_record r

  unfoldable pub get_fresh : String → Protocol → ℕ → Option Role → Store → Option Response
  get_fresh domain p now role s = fresh_response now (get_current (key_of domain p role) s)

  abbrev discredited : Response → String → Store → Option Stored → Store
  discredited r reason s none = s
  discredited r reason s (some found) =
      if str_eq found.content_hash (c.digest (fields_of r))
      then mark_unusable found.record_id reason s
      else s

  unfoldable pub mark_response_unusable : Response → String → Store → Store
  mark_response_unusable r reason s =
      discredited r reason s (get_current (key_of r.domain r.protocol r.rdap_role) s)
