-- ===== src/Lookup/StatusCodes.antt =====
-- The statuses of domains in the vocabularies of EPP and RDAP
-- (domainsmanager_lookup/_internal/status_codes.py). Two codes are the same object where both their
-- texts are the same: of two such objects the index refuses the second.
pub mod Canonical
pub mod Many
use domains_manager.Base.{
  String, Bool, true, false, ◌&&◌, not, Option, none, some, List, [], ◌∷◌, ◌++◌, any, str_eq,
  if◌then◌else◌, is_none, none_or, string_eq,
}
use domains_manager.Base.Dict.{Dict, get, put}
use domains_manager.Base.Result.{Result, ok, err, value_error, guard, ◌>>=◌, ◌>>◌}

pub record DomainStatusCode : Type 0 where
  pub epp_code : String
  pub rdap_code : String

abbrev pub Index : Type 0
Index = Dict String DomainStatusCode

pub record DomainStatusCodeRegistry : Type 0 where
  pub codes : List DomainStatusCode
  pub by_epp : Index
  pub by_rdap : Index

abbrev pub same_code : DomainStatusCode → DomainStatusCode → Bool
same_code a b = str_eq a.epp_code b.epp_code && str_eq a.rdap_code b.rdap_code

-- The keys of both indexes have one code.
unfoldable pub agrees : Index → Index → Bool
agrees [] by_rdap = true
agrees ((k, code) ∷ by_epp) by_rdap =
    none_or (get k by_rdap) (same_code code) && agrees by_epp by_rdap

-- a or b
abbrev pub or_code : Option DomainStatusCode → Option DomainStatusCode → Option DomainStatusCode
or_code none b = b
or_code (some a) b = some a

abbrev pub rdap_or : String → Option DomainStatusCode → String
rdap_or key none = key
rdap_or key (some code) = code.rdap_code

-- `_normalized_key`, where `words value` is " ".join(value.split()).
unfoldable pub normalized_key : (words casefold : String → String) → String → String
normalized_key words casefold value = casefold (words value)

module _ (words key_of : String → String) where
  -- DomainStatusCode.__post_init__
  unfoldable pub status_code : String → String → Result DomainStatusCode
  status_code epp rdap = do
    guard (not (str_eq (words epp) "")) value_error
    guard (not (str_eq (key_of rdap) "")) value_error
    ok (record { epp_code = words epp; rdap_code = key_of rdap })

  -- `_add_index`
  unfoldable pub add_index : Index → String → DomainStatusCode → Result Index
  add_index index value code =
      let key = key_of value in
      if is_none (get key index) then ok (put key code index) else err value_error

  unfoldable pub index_codes : List DomainStatusCode → Index → Index → Result (Index × Index)
  index_codes [] by_epp by_rdap = ok (by_epp, by_rdap)
  index_codes (code ∷ codes) by_epp by_rdap = do
    epp ← add_index by_epp code.epp_code code
    rdap ← add_index by_rdap code.rdap_code code
    index_codes codes epp rdap

  -- DomainStatusCodeRegistry.__init__
  unfoldable pub registry : List DomainStatusCode → Result DomainStatusCodeRegistry
  registry codes = do
    indexes ← index_codes codes [] []
    guard (agrees indexes.0 indexes.1) value_error
    ok (record { codes = codes; by_epp = indexes.0; by_rdap = indexes.1 })

  unfoldable pub resolve : DomainStatusCodeRegistry → String → Option DomainStatusCode
  resolve r value = let key = key_of value in or_code (get key r.by_epp) (get key r.by_rdap)

  unfoldable pub normalize : DomainStatusCodeRegistry → String → Option String
  unfolding resolve
  normalize r value =
      let key = key_of value in if str_eq key "" then none else some (rdap_or key (resolve r key))

  -- The loop of `normalize_many`; `seen` holds what is in the list.
  abbrev pub with_status : List String → Option String → List String
  with_status statuses none = statuses
  with_status statuses (some status) =
      if any (str_eq status) statuses then statuses else statuses ++ (status ∷ [])

  unfoldable pub normalize_from : DomainStatusCodeRegistry → List String → List String → List String
  normalize_from r statuses [] = statuses
  normalize_from r statuses (value ∷ values) =
      normalize_from r (with_status statuses (normalize r value)) values

  unfoldable pub normalize_many : DomainStatusCodeRegistry → List String → List String
  unfolding normalize_from
  normalize_many r values = normalize_from r [] values
