-- ===== src/Lookup/Hits.antt =====
-- What the search of the cache finds and raises.
use domains_manager.Base.{
  ℕ, ◌≡◌, refl, String, false, Option, none, some, List, [], ◌∷◌, inl, inr, arith, Bool-cases,
}
use domains_manager.Lookup.{
  Protocol, is_rdap, Response, NormalizedDomain, LookupResult, Raised, is_parse_error,
}
use domains_manager.Lookup.Effects.{Completion, returned, raised, Action}
use domains_manager.Lookup.Service.{
  DomainLookupService, Search, hit, missed, tick, parse_response, finalize_lookup,
}
use domains_manager.Lookup.Queries.{
  role_of, second_read, read_cached, cached_result, kept_or, tried, search_cache,
}
use domains_manager.Lookup.Ends.{
  EndsIn, Ends, Anything, Ends-pure, Ends-raise, Ends-settle, Ends-bind, Ends-weaken,
}
use domains_manager.Lookup.Finals.{
  IsDated, OnlyIf, Expects, IsLeft, Asked, tick_Ends, parse_Ends, finalize-IsDated,
}

-- A result for the domain, with a status that its dates give.
abbrev pub IsAnswer : NormalizedDomain → LookupResult → Type 0
IsAnswer d r = (r.domain ≡ d) × IsDated r.info

abbrev pub Found : NormalizedDomain → Search → Type 0
Found d (hit r) = IsAnswer d r
Found d (missed errors) = Unit

module _ (X : Raised → Type 0) (after : ℕ) {W : Type 0} (s : DomainLookupService W)
    (c : Expects X after s) where
  abbrev Parse : Raised → Type 0
  Parse = OnlyIf X after is_parse_error

  Left-Parse : (e : Raised) → IsLeft X after e → Parse e
  Left-Parse e h = rw h.0 (tt, inr h.1)

  pub Left-Asked : (e : Raised) → IsLeft X after e → Asked X after e
  Left-Asked e h = rw h.0 (tt, inr h.1)

  pub only_X : (e : Raised) → OnlyIf X after (λ x. false) e → X e
  only_X e h = ground arith

  -- The cache.
  read_Ends : (d : NormalizedDomain) (p : Protocol) → Ends Anything X (read_cached s d p)
  unfolding read_cached
  read_Ends d p = Ends-bind (tick s) _ (tick_Ends s X) (λ now o.
      Ends-bind (s.get_fresh d.registrable_domain p now (role_of p)) _
        (Ends-weaken _ (c.get_fresh d.registrable_domain p now (role_of p)) only_X) second)
    where
      second : (a : Option Response) → Anything a → Ends Anything X (second_read s d p a)
      second (some r) o = Ends-pure (some r) tt
      second none o = elim (Bool-cases (is_rdap p)) [
        | inl b ↦ rw b (
            Ends-bind (tick s) _ (tick_Ends s X)
              (λ now o1. Ends-weaken _ (c.get_fresh d.registrable_domain p now none) only_X))
        | inr b ↦ rw b (Ends-pure none tt)
      ]

  cached_Ends :
      (d : NormalizedDomain) (p : Protocol) (r : Response)
      → Ends (IsAnswer d) Parse (cached_result s d p r)
  unfolding cached_result
  cached_Ends d p r =
      Ends-bind (parse_response s p r d) _ (parse_Ends X after s c p r d) (λ parsed o.
        Ends-bind (finalize_lookup s p d parsed) _
          (Ends-weaken _ (finalize-IsDated X after s c p d parsed) Left-Parse)
          (λ final h. Ends-pure _ (refl, h)))

  kept_Ends :
      (d : NormalizedDomain) (p : Protocol) (rest : List String → Action W Search)
      (errors : List String)
      → ((es : List String) → Ends (Found d) X (rest es))
      → (a : Completion LookupResult) → EndsIn (IsAnswer d) Parse a
      → Ends (Found d) X (kept_or s p rest errors a)
  kept_Ends d p rest errors next (returned r) h = Ends-pure (hit r) h
  kept_Ends d p rest errors next (raised e) h = elim (Bool-cases (is_parse_error e)) [
    | inl b ↦ rw b (next _)
    | inr b ↦ rw b (Ends-raise e (ground arith))
  ]

  pub search_Ends :
      (d : NormalizedDomain) (ps : List Protocol) (errors : List String)
      → Ends (Found d) X (search_cache s d ps errors)
  unfolding search_cache
  search_Ends d [] errors = Ends-pure (missed errors) tt
  search_Ends d (p ∷ ps) errors =
      Ends-bind (read_cached s d p) _ (read_Ends d p) (go (search_Ends d ps))
    where
      go :
          ((es : List String) → Ends (Found d) X (search_cache s d ps es))
          → (a : Option Response) → Anything a
          → Ends (Found d) X (tried s d p (search_cache s d ps) errors a)
      go next none o = next errors
      go next (some r) o =
          Ends-settle (cached_result s d p r) _ (cached_Ends d p r) (kept_Ends d p _ errors next)
