-- ===== src/Tasks/Snapshots.antt =====
-- What `complete_success` reads out of a snapshot: `_changed_fields`, `_snapshot_datetime`,
-- `_previous_success_snapshot`, and the columns of the domain.
use domains_manager.Base.{
  ℕ, zero, false, String, Bool, ◌&&◌, ◌||◌, Option, none, some, List, [], ◌∷◌, eqb, ltb, str_eq,
  if◌then◌else◌, is_some, or_else, string_eq,
}
use domains_manager.Base.Result.{Result, ok, err, type_error, value_error, or_raise, ◌>>=◌}
use domains_manager.Base.Dict.{get}
use domains_manager.Models.{
  EventType, Json, null, flag, number, text, texts, object, Snapshot, Check, Domain, Database,
  json_beq,
}

-- What the standard library and `uuid4` supply: `datetime.fromisoformat`, `str` of a JSON value,
-- the digest of the canonical text of a snapshot, the deduplication keys that format identifiers,
-- event types and dates, `int` of a text and the decimal text of a number.
pub record Platform : Type 0 where
  pub from_iso : String → Option ℕ
  pub str : Json → String
  pub digest : Snapshot → String
  pub check_key : ℕ → ℕ → EventType → String
  pub expiration_key : ℕ → ℕ → ℕ → String
  pub int : String → Option ℕ
  pub decimal : ℕ → String

-- snapshot.get(field)
abbrev pub field_of : String → Snapshot → Json
field_of name s = or_else (get name s) null

abbrev pub monitored_fields : List String
monitored_fields =
    "registrar" ∷ "statuses" ∷ "registered_at" ∷ "expires_at" ∷ "registry_expires_at"
    ∷ "registrar_expires_at" ∷ "expiration_status" ∷ "updated_at" ∷ "nameservers" ∷ "dnssec_enabled"
    ∷ []

unfoldable pub differing : List String → Snapshot → Snapshot → List String
differing [] previous current = []
differing (f ∷ fs) previous current =
    let rest = differing fs previous current in
    if json_beq (field_of f previous) (field_of f current) then rest else f ∷ rest

-- `_changed_fields`
unfoldable pub changed_fields : Option Snapshot → Snapshot → List String
changed_fields none current = []
changed_fields (some previous) current = differing monitored_fields previous current

-- `_snapshot_datetime` on what a JSON value can be.
unfoldable pub snapshot_datetime : Platform → Json → Result (Option ℕ)
snapshot_datetime p null = ok none
snapshot_datetime p (text s) = do at ← or_raise (p.from_iso s) value_error; ok (some at)
snapshot_datetime p _ = err type_error

-- The newest check under (checked_at, id).
unfoldable pub newer : Check → Option Check → Check
newer c none = c
newer c (some d) =
    if ltb d.checked_at c.checked_at || (eqb d.checked_at c.checked_at && ltb d.id c.id)
    then c
    else d

unfoldable pub newest : (Check → Bool) → List Check → Option Check
unfolding newer
newest p [] = none
newest p (c ∷ cs) = let rest = newest p cs in if p c then some (newer c rest) else rest

abbrev pub is_success : ℕ → Check → Bool
is_success domain c = eqb c.domain_id domain && (str_eq c.outcome "success" && is_some c.snapshot)

-- `_previous_success_snapshot`
unfoldable pub previous_success_snapshot : ℕ → Database → Option Snapshot
previous_success_snapshot domain db = elim (newest (is_success domain) db.checks) [
  | none ↦ none
  | some c ↦ c.snapshot
]

-- str(snapshot.get("expiration_status") or "unknown")
expiration_status_of : Platform → Json → String
expiration_status_of p null = "unknown"
expiration_status_of p (text s) = if str_eq s "" then "unknown" else s
expiration_status_of p (flag false) = "unknown"
expiration_status_of p (number zero) = "unknown"
expiration_status_of p (texts []) = "unknown"
expiration_status_of p (object s) = if str_eq s "{}" then "unknown" else p.str (object s)
expiration_status_of p v = p.str v

text_of : Json → Option String
text_of (text s) = some s
text_of _ = none

-- The assignments to the domain up to `last_outcome`.
unfoldable pub refreshed_domain : Platform → Snapshot → ℕ → Domain → Result Domain
unfolding expiration_status_of text_of snapshot_datetime
refreshed_domain p s at d = do
  registered ← snapshot_datetime p (field_of "registered_at" s)
  expires ← snapshot_datetime p (field_of "expires_at" s)
  registry ← snapshot_datetime p (field_of "registry_expires_at" s)
  registrar ← snapshot_datetime p (field_of "registrar_expires_at" s)
  checked ← snapshot_datetime p (field_of "expiration_checked_at" s)
  updated ← snapshot_datetime p (field_of "updated_at" s)
  ok (record d {
    registrar_json = field_of "registrar" s;
    statuses = or_else (get "statuses" s) (texts []);
    registered_at = registered;
    expires_at = expires;
    registry_expires_at = registry;
    registrar_expires_at = registrar;
    expiration_status = expiration_status_of p (field_of "expiration_status" s);
    expiration_checked_at = checked;
    registrar_rdap_url = text_of (field_of "registrar_rdap_url" s);
    registry_updated_at = updated;
    nameservers = or_else (get "nameservers" s) (texts []);
    dnssec_enabled = field_of "dnssec_enabled" s;
    latest_source = field_of "source" s;
    last_successful_check_at = some at;
    last_check_at = some at;
    last_outcome = some "success";
  })
