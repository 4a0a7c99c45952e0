-- ===== src/Lookup/StatusCodes/Many.antt =====
-- `normalize_many` applied to what it returned.
use mathlib.Core.List.{append-nil, append_assoc}
use domains_manager.Base.{
  ◌≡◌, sym, ap, ◌∙◌, String, false, Option, some, List, [], ◌∷◌, ◌++◌, any, inl, inr, All,
  Bool-cases, Option-cases, str_eq,
}
use domains_manager.Base.Result.{ok}
use domains_manager.Lookup.StatusCodes.{
  DomainStatusCode, DomainStatusCodeRegistry, registry, normalize, normalize_from, normalize_many,
}
use domains_manager.Lookup.StatusCodes.Canonical.{key, IsCode, normalize_idem}

module _ (words casefold : String → String) (g : DomainStatusCodeRegistry) where
  abbrev normal : String → Option String
  normal = normalize words (key words casefold) g

  -- Statuses that the loop appends to others as they are.
  abbrev AreNew : List String → List String → Type 0
  AreNew statuses [] = Unit
  AreNew statuses (s ∷ rest) =
      (normal s ≡ some s) × (any (str_eq s) statuses ≡ false) × AreNew (statuses ++ (s ∷ [])) rest

  normalize_from-AreNew :
      (statuses rest : List String)
      → AreNew statuses rest
      → normalize_from words (key words casefold) g statuses rest ≡ statuses ++ rest
  unfolding normalize_from
  normalize_from-AreNew statuses [] new = sym (append-nil statuses)
  normalize_from-AreNew statuses (s ∷ rest) (same, absent, new) =
      rw (same, absent)
        (normalize_from-AreNew (statuses ++ (s ∷ [])) rest new
          ∙ append_assoc statuses (s ∷ []) rest)

  abbrev Appended : List String → List String → Type 0
  Appended statuses values =
      (rest : List String) × (normalize_from words (key words casefold) g statuses values
        ≡ statuses ++ rest)
      × AreNew statuses rest

  module _ (idem : (value s : String) → normal value ≡ some s → normal s ≡ some s) where
    appended : (statuses values : List String) → Appended statuses values
    unfolding normalize_from
    appended statuses [] = ([], sym (append-nil statuses), tt)
    appended statuses (value ∷ values) = elim (Option-cases (normal value)) [
      | inl n ↦ rw n (appended statuses values)
      | inr (s, n) ↦ elim (Bool-cases (any (str_eq s) statuses)) [
        | inl b ↦ rw (n, b) (appended statuses values)
        | inr b ↦
            let (rest, e, new) = appended (statuses ++ (s ∷ [])) values in
            rw (n, b) (s ∷ rest, e ∙ append_assoc statuses (s ∷ []) rest, (idem value s n, b, new))
      ]
    ]

  -- Where the key of a key is the key, and the constructor made the registry of codes that theirs
  -- made, what `normalize_many` returned it returns again for itself.
  pub normalize_many_idem :
      (codes : List DomainStatusCode) (values : List String)
      → ((s : String) → key words casefold (key words casefold s) ≡ key words casefold s)
      → All (IsCode words (key words casefold)) codes
      → registry words (key words casefold) codes ≡ ok g
      → let statuses = normalize_many words (key words casefold) g values in
        normalize_many words (key words casefold) g statuses ≡ statuses
  unfolding normalize_many
  normalize_many_idem codes values idem made built =
      let (rest, e, new) =
        appended (λ value s. normalize_idem words casefold codes g value s idem made built) []
          values in
      ap (normalize_from words (key words casefold) g []) e
      ∙ normalize_from-AreNew [] rest new
      ∙ sym e
