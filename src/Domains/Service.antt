-- ===== src/Domains/Service.antt =====
-- DomainService (domainsmanager_application/domains.py): a user's domains are added, changed and
-- removed, and a domain that begins to be watched is refreshed at once.
use Prim.Native.String.{◌++◌ as str_append}
use domains_manager.Base.{
  ℕ, ◌+◌, String, Bool, true, false, ◌&&◌, not, Option, none, some, List, [], ◌∷◌, str_eq, max,
  if◌then◌else◌, is_some, or_else, string_eq,
}
use domains_manager.Base.Result.{
  Error, Result, ok, err, duplicate_record, domain_already_managed, invalid_domain,
  domain_not_found, subdomain_not_supported, version_conflict, or_raise, guard, ◌>>=◌, ◌>>◌,
}
use domains_manager.Models.{Domain, Database, Task, queued, monitor_enabled, null, texts}
use domains_manager.Tasks.Enqueue.{add_task}
use domains_manager.Domains.{
  get_domain, get_by_name, add_domain, restore, Changes, in_fields, update_local, soft_delete,
  Collation, DomainListQuery, DomainPage, DomainStats, list_domains, summarize, days, expired,
  expiring,
}

-- DomainIdentity
pub record Identity : Type 0 where
  pub ascii_name : String
  pub unicode_name : String
  pub registrable_domain : String
  pub public_suffix : String
  pub tld : String

pub record DomainService : Type 0 where
  -- `DomainLookup.normalize`
  pub normalize : String → Option Identity
  pub uuid_text : ℕ → String
  pub isoformat : ℕ → String
  pub sha256 : String → String
  pub initial_task_max_attempts : ℕ

-- What `uuid4` returns to one call.
pub record NewIds : Type 0 where
  pub domain_id : ℕ
  pub task_id : ℕ
  pub idempotency_id : ℕ

abbrev pub new_domain : ℕ → ℕ → Identity → Bool → ℕ → Domain
new_domain id user i monitor now = record {
  id = id;
  user_id = user;
  name_ascii = i.ascii_name;
  name_unicode = i.unicode_name;
  registrable_domain = i.registrable_domain;
  public_suffix = i.public_suffix;
  tld = i.tld;
  registrar_json = null;
  statuses = texts [];
  registered_at = none;
  expires_at = none;
  registry_expires_at = none;
  registrar_expires_at = none;
  expiration_status = "unknown";
  expiration_checked_at = none;
  registrar_rdap_url = none;
  registry_updated_at = none;
  nameservers = texts [];
  dnssec_enabled = null;
  latest_source = null;
  last_successful_check_at = none;
  last_check_at = none;
  next_check_at = none;
  last_outcome = none;
  monitor_enabled = monitor;
  renewal_mode = none;
  notes = none;
  version = 1;
  deleted_at = none;
  deleted_by_user_id = none;
  created_at = now;
  updated_at = now;
}

abbrev pub initial_task : DomainService → NewIds → Domain → ℕ → Task
initial_task s x d now = record {
  id = x.task_id;
  user_id = d.user_id;
  domain_id = d.id;
  status = queued;
  origin = monitor_enabled;
  force_refresh = false;
  attempt_count = 0;
  max_attempts = s.initial_task_max_attempts;
  available_at = now;
  lease_token = none;
  lease_owner = none;
  lease_until = none;
  started_at = none;
  completed_at = none;
  check_id = none;
  source_check_id = none;
  error_code = none;
  error_message = none;
  result_code = none;
  result_message = none;
  fresh_until = none;
  created_at = now;
  updated_at = now;
}

-- f"monitor-enabled:{record.id}:{now.isoformat()}"
abbrev pub initial_key : DomainService → ℕ → ℕ → String
initial_key s id now =
    str_append "monitor-enabled:" (str_append (s.uuid_text id) (str_append ":" (s.isoformat now)))

-- `_enqueue_initial_refresh`
unfoldable pub enqueue_initial_refresh :
    DomainService → NewIds → Domain → ℕ → Database → Result Database
enqueue_initial_refresh s x d now db = do
  (t, db1) ←
      add_task x.idempotency_id (initial_task s x d now) (initial_key s d.id now)
        (s.sha256 "monitor-enabled-initial-refresh") (now + days 1) db
  ok db1

-- if d.monitor_enabled: ...
abbrev pub refresh_if : Bool → DomainService → NewIds → Domain → ℕ → Database → Result Database
refresh_if false s x d now db = ok db
refresh_if true s x d now db = enqueue_initial_refresh s x d now db

abbrev pub managed_if_duplicate : Error → Error
managed_if_duplicate duplicate_record = domain_already_managed
managed_if_duplicate cause = cause

-- The transaction of `create` where the name is the user's already.
unfoldable pub create_again :
    DomainService → NewIds → Domain → ℕ → Bool → ℕ → Database → Result ((Domain × Bool) × Database)
create_again s x existing user monitor now db = do
  guard (is_some existing.deleted_at) domain_already_managed
  let (row, db1) = restore existing.id user now monitor db in
      (do
        d ← or_raise row domain_already_managed
        db2 ← refresh_if d.monitor_enabled s x d now db1
        ok ((d, true), db2))

-- The transaction of `create` where it is not.
unfoldable pub create_first :
    DomainService
    → NewIds
    → Identity
    → ℕ
    → Bool
    → ℕ
    → Database
    → Result ((Domain × Bool) × Database)
create_first s x i user monitor now db =
    let d = new_domain x.domain_id user i monitor now in
    elim (add_domain d db) [
      | err cause ↦ err (managed_if_duplicate cause)
      | ok db1 ↦ (do db2 ← refresh_if d.monitor_enabled s x d now db1; ok ((d, false), db2))
    ]

-- `create`: the domain, and whether it was restored.
unfoldable pub create :
    DomainService → NewIds → ℕ → String → Bool → ℕ → Database → Result ((Domain × Bool) × Database)
create s x user name monitor now db = do
  i ← or_raise (s.normalize name) invalid_domain
  guard (str_eq i.ascii_name i.registrable_domain) subdomain_not_supported
  elim (get_by_name user i.ascii_name db) [
    | some existing ↦ create_again s x existing user monitor now db
    | none ↦ create_first s x i user monitor now db
  ]

-- `get`
abbrev pub read_domain : ℕ → ℕ → Database → Result Domain
read_domain user id db = or_raise (get_domain user id false db) domain_not_found

-- "monitor_enabled" in fields and monitor_enabled is True and not current.monitor_enabled
abbrev pub starts_watch : Changes → Domain → Bool
starts_watch c current =
    in_fields "monitor_enabled" c
    && (or_else c.monitor_enabled false && not current.monitor_enabled)

-- `update`
unfoldable pub update_domain :
    DomainService → NewIds → ℕ → ℕ → ℕ → Changes → ℕ → Database → Result (Domain × Database)
update_domain s x user id version c now db = do
  current ← or_raise (get_domain user id false db) domain_not_found
  (row, db1) ← update_local id user version c now db
  d ← or_raise row version_conflict
  db2 ← refresh_if (starts_watch c current) s x d now db1
  ok (d, db2)

-- `delete`
unfoldable pub delete_domain : ℕ → ℕ → ℕ → Database → Result Database
delete_domain user id now db = do
  current ← or_raise (get_domain user id true db) domain_not_found
  if is_some current.deleted_at then ok db else ok (soft_delete id user now db).1

-- The preferences of a user, as far as they are read here: a list of numbers, or something else.
pub data Preference : Type 0 where
  numbers : List ℕ → Preference
  something : Preference

abbrev pub largest : List ℕ → ℕ
largest [] = 0
largest (n ∷ ns) = max n (largest ns)

-- `warning_days_from_preferences`; numbers in the list are taken, and what else is in it is not.
abbrev pub warning_days_of : Option Preference → ℕ
warning_days_of (some (numbers (n ∷ ns))) = largest (n ∷ ns)
warning_days_of _ = 30

-- `stats`
abbrev pub stats : Option Preference → ℕ → ℕ → Database → DomainStats
stats preference user now db = summarize user now (warning_days_of preference) db

-- `_resolved_list_query`
unfoldable pub resolved_list_query :
    Option Preference → ℕ → DomainListQuery → Result DomainListQuery
resolved_list_query preference now q = elim q.lifecycle [
  | none ↦ ok q
  | some lifecycle ↦
      if is_some q.expires_from
      then err invalid_domain
      else if is_some q.expires_to
      then err invalid_domain
      else elim lifecycle [
        | expired ↦
            ok (record q { expires_from = none; expires_to = some now; lifecycle = some expired })
        | expiring ↦ ok (record q {
          expires_from = some now;
          expires_to = some (now + days (warning_days_of preference));
          lifecycle = some expiring;
        })
      ]
]

-- `list`
unfoldable pub list_page :
    Collation → Option Preference → ℕ → ℕ → DomainListQuery → Database → Result DomainPage
list_page c preference user now q db = do
  resolved ← resolved_list_query preference now q
  ok (list_domains c user resolved db)
