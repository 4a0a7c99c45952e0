-- ===== src/Records.antt =====
-- The records half of MemoryLookupStore (domainsmanager_lookup/memory_store.py): the current record of
-- a cache key, and the leases of refreshes. The lock makes every method one step.
mod Newest
pub mod Current
pub mod Leases
use domains_manager.Base.{
  ℕ, ◌+◌, String, Bool, ◌&&◌, ◌||◌, not, Option, none, some, List, [], ◌∷◌, eqb, ltb, ◌==◌,
  if◌then◌else◌, is_some, none_or, some_and, nat_eq, pair_eq,
}
use domains_manager.Base.Dict.{Dict, get, put, keep}

-- (namespace, cache_key)
abbrev pub Key : Type 0
Key = String × String

-- StoredLookupRecord
pub record Stored : Type 0 where
  pub record_id : ℕ
  pub key : Key
  pub schema_version : ℕ
  pub payload : String
  pub payload_codec : String
  pub content_hash : String
  pub observed_at : ℕ
  pub fresh_until : ℕ
  pub stale_until : Option ℕ
  pub retry_after : Option ℕ
  pub record_kind : String
  pub protocol : Option String
  pub endpoint : Option String
  pub status_code : Option ℕ

-- RefreshLease
pub record RefreshLease : Type 0 where
  pub key : Key
  pub token : ℕ
  pub owner : String
  pub expires_at : ℕ

pub record Store : Type 0 where
  pub records : Dict ℕ Stored
  pub heads : Dict Key ℕ
  pub unusable : Dict ℕ String
  pub leases : Dict Key RefreshLease

abbrev pub empty : Store
empty = record { records = []; heads = []; unusable = []; leases = [] }

unfoldable pub get_current : Key → Store → Option Stored
get_current key s = elim (get key s.heads) [
  | none ↦ none
  | some id ↦ if is_some (get id s.unusable) then none else get id s.records
]

-- `_is_newer`
abbrev pub is_newer : Stored → Stored → Bool
is_newer a b =
    ltb b.observed_at a.observed_at
    || (eqb a.observed_at b.observed_at && ltb b.record_id a.record_id)

-- self._records.setdefault(record.record_id, record)
unfoldable pub kept : Stored → Dict ℕ Stored → Dict ℕ Stored
kept r records = elim (get r.record_id records) [
  | none ↦ put r.record_id r records
  | some old ↦ records
]

abbrev pub head_of : Key → Dict Key ℕ → Dict ℕ Stored → Option Stored
head_of key heads records = elim (get key heads) [ none ↦ none | some id ↦ get id records ]

unfoldable pub publish : Stored → Store → Store
unfolding kept
publish r s =
    let records = kept r s.records in
    if none_or (head_of r.key s.heads records) (is_newer r)
    then record s { records = records; heads = put r.key r.record_id s.heads }
    else record s { records = records }

unfoldable pub mark_unusable : ℕ → String → Store → Store
mark_unusable id reason s = record s {
  unusable = put id reason s.unusable;
  heads = keep (λ k i. not (eqb i id)) s.heads;
}

-- `try_acquire_lease`, with the token that `uuid4` returned.
unfoldable pub try_acquire_lease :
    Key → String → (token now ttl : ℕ) → Store → Option RefreshLease × Store
try_acquire_lease key owner token now ttl s =
    if some_and (get key s.leases) (λ l. ltb now l.expires_at)
    then (none, s)
    else let l : RefreshLease = record {
      key = key;
      token = token;
      owner = owner;
      expires_at = now + ttl;
    } in
      (some l, record s { leases = put key l s.leases })

unfoldable pub release_lease : RefreshLease → Store → Store
release_lease lease s =
    if some_and (get lease.key s.leases) (λ l. eqb l.token lease.token)
    then record s { leases = keep (λ k l. not (k == lease.key)) s.leases }
    else s
