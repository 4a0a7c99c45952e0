-- ===== src/Tests/StatusRuns.antt =====
-- The statuses of domains at concrete inputs.
use domains_manager.Base.{◌≡◌, refl, String, [], ◌∷◌, string_eq}
use domains_manager.Base.Dict.{get, put}
use domains_manager.Base.Result.{ok}
use domains_manager.Lookup.StatusCodes.{
  DomainStatusCode, DomainStatusCodeRegistry, normalized_key, status_code, add_index, agrees,
  index_codes, registry, resolve, normalize, normalize_from, normalize_many,
}
use domains_manager.Lookup.StatusCodes.Canonical.{key}
use domains_manager.Lookup.StatusCodes.Many.{normalize_many_idem}

abbrev active : DomainStatusCode
active = record { epp_code = "ok"; rdap_code = "active" }

abbrev inactive : DomainStatusCode
inactive = record { epp_code = "inactive"; rdap_code = "inactive" }

abbrev statuses : DomainStatusCodeRegistry
statuses = record {
  codes = active ∷ inactive ∷ [];
  by_epp = ("ok", active) ∷ ("inactive", inactive) ∷ [];
  by_rdap = ("active", active) ∷ ("inactive", inactive) ∷ [];
}

-- Texts without spaces and capitals.
abbrev same : String → String
same value = value

is_active : status_code same (key same same) "ok" "active" ≡ ok active
unfolding status_code normalized_key
is_active = refl

is_inactive : status_code same (key same same) "inactive" "inactive" ≡ ok inactive
unfolding status_code normalized_key
is_inactive = refl

is_registry : registry same (key same same) (active ∷ inactive ∷ []) ≡ ok statuses
unfolding registry index_codes add_index agrees normalized_key get put
is_registry = refl

same_key : (s : String) → key same same (key same same s) ≡ key same same s
unfolding normalized_key
same_key s = refl

normalize_many_idem_example :
    let normalized =
      normalize_many same (key same same) statuses ("ok" ∷ "inactive" ∷ "active" ∷ []) in
    normalize_many same (key same same) statuses normalized ≡ normalized
normalize_many_idem_example =
    normalize_many_idem same same statuses (active ∷ inactive ∷ [])
      ("ok" ∷ "inactive" ∷ "active" ∷ []) same_key
      (("ok", "active", is_active), (("inactive", "inactive", is_inactive), tt)) is_registry

two_statuses :
    normalize_many same (key same same) statuses ("ok" ∷ "inactive" ∷ "active" ∷ [])
    ≡ "active" ∷ "inactive" ∷ []
unfolding normalize_many normalize_from normalize resolve normalized_key get
two_statuses = refl
