-- ===== src/Domains.antt =====
-- SqlAlchemyDomainRepository (domainsmanager_persistence/domains.py), but for what the scheduler
-- calls: the domains of a user by identifier and by name, their pages and their numbers.
-- ManagedDomainRecord is the row without the columns that its users do not see.
pub mod Service
pub mod Totals
pub mod Versions
pub mod Later
pub mod Once
use domains_manager.Base.{
  ℕ, ◌+◌, ◌-◌, ◌*◌, String, Bool, true, false, ◌||◌, ◌&&◌, not, Option, none, some, List, [], ◌∷◌,
  ◌++◌, eqb, leb, ltb, str_eq, length, take, drop, if◌then◌else◌, is_none, is_some, none_or,
  some_and, any, or_else,
}
use domains_manager.Base.Table.{find, select, update, count}
use domains_manager.Base.Result.{Result, ok, err, duplicate_record, integrity_error}
use domains_manager.Models.{Domain, Database, texts, null}
use domains_manager.Scheduler.{sort_by}

-- user_id = ... AND id = ..., for one user.
abbrev pub is_own : ℕ → ℕ → Domain → Bool
is_own user id d = eqb d.id id && eqb d.user_id user

abbrev pub is_kept : Domain → Bool
is_kept d = is_none d.deleted_at

-- `get`
unfoldable pub get_domain : ℕ → ℕ → Bool → Database → Option Domain
get_domain user id include_deleted db =
    find (λ d. is_own user id d && (include_deleted || is_kept d)) db.domains

abbrev pub has_name : ℕ → String → Domain → Bool
has_name user name d = eqb d.user_id user && str_eq d.name_ascii name

-- `get_by_name`; `for_update` changes no value.
unfoldable pub get_by_name : ℕ → String → Database → Option Domain
get_by_name user name db = find (has_name user name) db.domains

-- The primary key, and the unique constraint over the user and the name.
abbrev pub domain_conflicts : Domain → Domain → Bool
domain_conflicts new d = eqb d.id new.id || has_name new.user_id new.name_ascii d

-- `add`
unfoldable pub add_domain : Domain → Database → Result Database
add_domain new db = elim (find (domain_conflicts new) db.domains) [
  | none ↦ ok (record db { domains = db.domains ++ (new ∷ []) })
  | some d ↦ err duplicate_record
]

-- UPDATE ... RETURNING over a condition that one row satisfies at most.
unfoldable pub write_returning :
    (Domain → Bool) → (Domain → Domain) → Database → Option Domain × Database
write_returning which values db = elim (find which db.domains) [
  | none ↦ (none, db)
  | some d ↦ (some (values d), record db { domains = update which values db.domains })
]

abbrev pub restored : ℕ → Bool → Domain → Domain
restored at monitor d = record d {
  deleted_at = none;
  deleted_by_user_id = none;
  monitor_enabled = monitor;
  updated_at = at;
  version = d.version + 1;
}

abbrev pub is_deleted : ℕ → ℕ → Domain → Bool
is_deleted user id d = is_own user id d && is_some d.deleted_at

-- `restore`
abbrev pub restore : ℕ → ℕ → ℕ → Bool → Database → Option Domain × Database
restore id user at monitor = write_returning (is_deleted user id) (restored at monitor)

-- The columns that a user may set, by their names in `fields`.
pub record Changes : Type 0 where
  pub monitor_enabled : Option Bool
  pub renewal_mode : Option String
  pub notes : Option String
  pub fields : List String

abbrev pub in_fields : String → Changes → Bool
in_fields field c = any (str_eq field) c.fields

abbrev pub edited : Changes → ℕ → Domain → Domain
edited c at d = record d {
  monitor_enabled =
      if in_fields "monitor_enabled" c
      then or_else c.monitor_enabled d.monitor_enabled
      else d.monitor_enabled;
  renewal_mode = if in_fields "renewal_mode" c then c.renewal_mode else d.renewal_mode;
  notes = if in_fields "notes" c then c.notes else d.notes;
  updated_at = at;
  version = d.version + 1;
}

abbrev pub is_at_version : ℕ → ℕ → ℕ → Domain → Bool
is_at_version user id version d = is_own user id d && (is_kept d && eqb d.version version)

-- The column takes no NULL.
abbrev pub is_null_flag : Changes → Bool
is_null_flag c = in_fields "monitor_enabled" c && is_none c.monitor_enabled

-- `update_local`
unfoldable pub update_local : ℕ → ℕ → ℕ → Changes → ℕ → Database → Result (Option Domain × Database)
update_local id user version c at db =
    if is_some (find (is_at_version user id version) db.domains) && is_null_flag c
    then err integrity_error
    else ok (write_returning (is_at_version user id version) (edited c at) db)

abbrev pub deleted : ℕ → ℕ → Domain → Domain
deleted user at d = record d {
  deleted_at = some at;
  deleted_by_user_id = some user;
  updated_at = at;
  version = d.version + 1;
}

abbrev pub is_present : ℕ → ℕ → Domain → Bool
is_present user id d = is_own user id d && is_kept d

-- `soft_delete`
unfoldable pub soft_delete : ℕ → ℕ → ℕ → Database → Bool × Database
soft_delete id user at db =
    if eqb (count (is_present user id) db.domains) 1
    then (true, record db { domains = update (is_present user id) (deleted user at) db.domains })
    else (false, db)

pub data Lifecycle : Type 0 where
  expiring expired : Lifecycle

pub data Column : Type 0 where
  by_name by_created by_expires by_last_check : Column

pub record DomainListQuery : Type 0 where
  pub page : ℕ
  pub page_size : ℕ
  pub query : Option String
  pub monitor_enabled : Option Bool
  pub expires_from : Option ℕ
  pub expires_to : Option ℕ
  pub last_outcome : Option String
  pub sort : Column
  pub descending : Bool
  pub lifecycle : Option Lifecycle

-- What the engine of the database does: ILIKE, and the order of texts.
pub record Collation : Type 0 where
  pub ilike : String → String → Bool
  pub precedes : String → String → Bool

abbrev pub flag_is : Bool → Bool → Bool
flag_is true b = b
flag_is false b = not b

-- The filter on the name; an empty text is no filter.
unfoldable pub matches_name : Collation → Option String → Domain → Bool
matches_name c none d = true
matches_name c (some q) d = str_eq q "" || (c.ilike d.name_ascii q || c.ilike d.name_unicode q)

-- The filters on the expiry; a comparison with NULL is not true.
unfoldable pub in_range : DomainListQuery → Domain → Bool
in_range q d = elim q.lifecycle [
  | some expired ↦
      some_and d.registrar_expires_at (λ at. none_or q.expires_to (λ until. ltb at until))
  | some expiring ↦
      none_or q.expires_from (λ since. some_and d.registrar_expires_at (λ at. leb since at))
      && none_or q.expires_to (λ until. some_and d.registrar_expires_at (λ at. leb at until))
  | none ↦
      none_or q.expires_from (λ since. some_and d.registrar_expires_at (λ at. leb since at))
      && none_or q.expires_to (λ until. some_and d.registrar_expires_at (λ at. leb at until))
]

-- The filters of `list`.
abbrev pub is_listed : Collation → ℕ → DomainListQuery → Domain → Bool
is_listed c user q d =
    eqb d.user_id user
    && (is_kept d
        && (matches_name c q.query d
            && (none_or q.monitor_enabled (flag_is d.monitor_enabled)
                && (in_range q d
                    && none_or q.last_outcome (λ o. some_and d.last_outcome (str_eq o))))))

-- a < b, with NULL behind every value whatever the direction; equal values by identifier.
abbrev pub nulls_last : Bool → Option ℕ → Option ℕ → Bool → Bool
nulls_last descending none none tie = tie
nulls_last descending none (some b) tie = false
nulls_last descending (some a) none tie = true
nulls_last descending (some a) (some b) tie =
    if eqb a b then tie else if descending then ltb b a else ltb a b

unfoldable pub precedes_in : Collation → Column → Bool → Domain → Domain → Bool
precedes_in c by_name descending a b =
    if str_eq a.name_ascii b.name_ascii
    then leb a.id b.id
    else if descending
    then c.precedes b.name_ascii a.name_ascii
    else c.precedes a.name_ascii b.name_ascii
precedes_in c by_created descending a b =
    nulls_last descending (some a.created_at) (some b.created_at) (leb a.id b.id)
precedes_in c by_expires descending a b =
    nulls_last descending a.registrar_expires_at b.registrar_expires_at (leb a.id b.id)
precedes_in c by_last_check descending a b =
    nulls_last descending a.last_check_at b.last_check_at (leb a.id b.id)

pub record DomainPage : Type 0 where
  pub items : List Domain
  pub total : ℕ
  pub page : ℕ
  pub page_size : ℕ

-- `list`; a page is at least 1.
unfoldable pub list_domains : Collation → ℕ → DomainListQuery → Database → DomainPage
list_domains c user q db =
    let rows =
      sort_by (precedes_in c q.sort q.descending) (select (is_listed c user q) db.domains) in
    record {
      items = take q.page_size (drop ((q.page - 1) * q.page_size) rows);
      total = count (is_listed c user q) db.domains;
      page = q.page;
      page_size = q.page_size;
    }

pub record DomainStats : Type 0 where
  pub managed : ℕ
  pub monitored : ℕ
  pub expiring_count : ℕ
  pub expired_count : ℕ
  pub warning_days : ℕ

abbrev pub is_active_of : ℕ → Domain → Bool
is_active_of user d = eqb d.user_id user && is_kept d

abbrev pub days : ℕ → ℕ
days n = n * 86400000000

-- `summarize`
unfoldable pub summarize : ℕ → ℕ → ℕ → Database → DomainStats
summarize user now warning_days db = record {
  managed = count (is_active_of user) db.domains;
  monitored = count (λ d. is_active_of user d && d.monitor_enabled) db.domains;
  expired_count =
      count (λ d. is_active_of user d && some_and d.registrar_expires_at (λ at. ltb at now))
        db.domains;
  expiring_count =
      count
        (λ d.
          is_active_of user d
          && some_and d.registrar_expires_at (λ at. leb now at && leb at (now + days warning_days)))
        db.domains;
  warning_days = warning_days;
}
