-- ===== src/Lookup/Answers.antt =====
-- What `lookup` returns and raises, from what the parts of the service raise.
use domains_manager.Base.{
  ℕ, ◌≤◌, ◌≡◌, refl, sym, ap, ◌∙◌, String, Bool, true, false, ◌&&◌, Option, none, some, List, [],
  ◌∷◌, ◌++◌, ◌⊎◌, inl, inr, arith, All, Bool-cases, Option-cases, is_some,
}
use domains_manager.Lookup.{
  Protocol, protocol_name, is_rdap, Response, RegistryEndpoint, NormalizedDomain, DomainInfo,
  LookupResult, Raised, lookup_failed, is_exception, is_parse_error, is_lookup_error,
  is_discovery_error,
}
use domains_manager.Lookup.Effects.{Completion, returned, raised, Action, pure, call, suppress}
use domains_manager.Lookup.Service.{
  DomainLookupService, Search, hit, missed, tick, parse_response, finalize_lookup, has_endpoint,
  failure_text, detail_of, least, retry_times_of,
}
use domains_manager.Lookup.Queries.{
  search_cache, cached_endpoint, discovered, read_again, get_endpoint, marked, Gate, through,
  query_and_parse, gated_query, query_one, passed, query_all, queried, searched, named, lookup,
}
use domains_manager.Lookup.Ends.{
  EndsIn, Ends, Anything, Ends-pure, Ends-raise, Ends-call, Ends-settle, Ends-bind, Ends-weaken,
  Ends-widen, Ends-suppress,
}
use domains_manager.Lookup.Hits.{IsAnswer, Found, search_Ends, Left-Asked}
use domains_manager.Lookup.Finals.{
  IsDated, OnlyIf, Expects, Asked, lookup_of_parse, tick_Ends, parse_Ends, finalize-IsDated,
}

-- The failure of a lookup, which asks for no retry before `after`.
abbrev pub IsFailure : ℕ → Raised → Type 0
IsFailure after (lookup_failed text none) = Unit
IsFailure after (lookup_failed text (some until)) = after ≤ until
IsFailure after _ = ⊥

least-le :
    (after : ℕ) (ts : List ℕ) → All (λ t. after ≤ t) ts → (u : ℕ) → least ts ≡ some u → after ≤ u
unfolding least
least-le after [] h u e = absurd (cc)
least-le after (t ∷ ts) h u e = elim (Option-cases (least ts)) [
  | inl n ↦ ground arith
  | inr (v, n) ↦ ground (arith, least-le after ts h.1 v)
]

All-append : (P : ℕ → Type 0) (xs ys : List ℕ) → All P xs → All P ys → All P (xs ++ ys)
All-append P [] ys h k = k
All-append P (x ∷ xs) ys h k = (h.0, All-append P xs ys h.1 k)

module _ (X : Raised → Type 0) (after : ℕ) {W : Type 0} (s : DomainLookupService W)
    (c : Expects X after s) where
  suppressed_Asked :
      (e : Raised) → (is_exception e ≡ false) × OnlyIf X after is_exception e → Asked X after e
  suppressed_Asked e h = (h.1.0, ground arith)

  marked_Ends :
      (r : Response) (a : Completion DomainInfo)
      → EndsIn Anything (OnlyIf X after is_parse_error) a
      → Ends Anything (Asked X after) (marked s r a)
  marked_Ends r (returned info) o = Ends-pure (r, info) tt
  marked_Ends r (raised e) q = elim (Bool-cases (is_parse_error e)) [
    | inl b ↦ rw b (
        Ends-bind (suppress (s.mark_unusable r "response parsing failed")) _
          (Ends-weaken _
            (Ends-suppress (s.mark_unusable r "response parsing failed")
              (c.mark_unusable r "response parsing failed"))
            suppressed_Asked)
          (λ done o. Ends-raise e (lookup_of_parse X after e q)))
    | inr b ↦ rw b (Ends-raise e (lookup_of_parse X after e q))
  ]

  parsed_Ends :
      (p : Protocol) (d : NormalizedDomain) (e : RegistryEndpoint)
      → Ends Anything (Asked X after) (query_and_parse s p d e)
  unfolding query_and_parse
  parsed_Ends p d e =
      Ends-bind (s.query p d e) _ (c.query p d e) (λ r o.
        Ends-settle (parse_response s p r d) _ (parse_Ends X after s c p r d) (marked_Ends r))

  gated_Ends :
      (p : Protocol) (d : NormalizedDomain) (e : RegistryEndpoint)
      → Ends Anything (Asked X after) (gated_query s p d e)
  unfolding gated_query
  gated_Ends p d e = go s.gate refl
    where
      go : (g : Option (Gate s)) → s.gate ≡ g → Ends Anything (Asked X after) (through s g p d e)
      go none g = parsed_Ends p d e
      go (some run) g = elim (Bool-cases (is_rdap p && is_some s.query_related)) [
        | inl b ↦ rw b (parsed_Ends p d e)
        | inr b ↦ rw b (c.gate run g (protocol_name p) (s.endpoint_key p e) _ (parsed_Ends p d e))
      ]

  one_Ends :
      (d : NormalizedDomain) (e : RegistryEndpoint) (known : Bool) (p : Protocol)
      → Ends (IsAnswer d) (Asked X after) (query_one s d e known p)
  unfolding query_one
  one_Ends d e known p = Ends-bind (gated_query s p d e) _ (gated_Ends p d e) (λ answer o.
      Ends-bind (suppress (s.save answer.0)) _
        (Ends-weaken _ (Ends-suppress (s.save answer.0) (c.save answer.0)) (λ x q. q.1))
        (λ done o1.
          Ends-bind (finalize_lookup s p d answer.1) _
            (Ends-weaken _ (finalize-IsDated X after s c p d answer.1) (Left-Asked X after s c))
            (λ final h. Ends-pure _ (refl, h))))

  abbrev Sought : Raised → Type 0
  Sought = OnlyIf X after is_discovery_error

  abbrev pub Refused : Raised → Type 0
  Refused e = IsFailure after e ⊎ X e

  passed_Ends :
      (d : NormalizedDomain) (p : Protocol) (rest : List String → List ℕ → Action W LookupResult)
      (errors : List String) (times : List ℕ)
      → All (λ t. after ≤ t) times
      → ((es : List String) (ts : List ℕ)
          → All (λ t. after ≤ t) ts
          → Ends (IsAnswer d) Refused (rest es ts))
      → (a : Completion LookupResult) → EndsIn (IsAnswer d) (Asked X after) a
      → Ends (IsAnswer d) Refused (passed s p rest errors times a)
  passed_Ends d p rest errors times h next (returned r) o = Ends-pure r o
  passed_Ends d p rest errors times h next (raised e) q = elim (Bool-cases (is_lookup_error e)) [
    | inl b ↦
        rw b (next _ (times ++ retry_times_of e) (All-append _ times (retry_times_of e) h q.0))
    | inr b ↦ rw b (Ends-raise e (ground arith))
  ]

  queries_Ends :
      (d : NormalizedDomain) (e : RegistryEndpoint) (known : Bool) (ps : List Protocol)
      (errors : List String) (times : List ℕ)
      → All (λ t. after ≤ t) times
      → Ends (IsAnswer d) Refused (query_all s d e known ps errors times)
  unfolding query_all
  queries_Ends d e known [] errors times h = Ends-raise _ (inl (failure_of (least times) refl))
    where
      failure_of :
          (o : Option ℕ)
          → least times ≡ o
          → IsFailure after (lookup_failed (failure_text d (detail_of errors)) o)
      failure_of none l = tt
      failure_of (some u) l = least-le after times h u l
  queries_Ends d e known (p ∷ ps) errors times h = elim (Bool-cases (has_endpoint p e)) [
    | inl b ↦ rw b (
        Ends-settle (query_one s d e known p) _ (one_Ends d e known p)
          (passed_Ends d p _ errors times h (queries_Ends d e known ps)))
    | inr b ↦ rw b (queries_Ends d e known ps errors times h)
  ]

  cached_endpoint_Ends :
      (key : String) (refresh : Bool) → Ends Anything Sought (cached_endpoint s key refresh)
  cached_endpoint_Ends key true = Ends-pure none tt
  cached_endpoint_Ends key false =
      Ends-bind (tick s) _ (tick_Ends s Sought) (λ now o. c.get_fresh_endpoint key now)

  discovered_Ends :
      (d : NormalizedDomain) (a : Option RegistryEndpoint) → Ends Anything Sought (discovered s d a)
  discovered_Ends d (some e) = Ends-pure (e, true) tt
  discovered_Ends d none = Ends-bind (s.discover d) _ (c.discover d) (λ e o.
      Ends-bind (s.save_endpoint e) _ (c.save_endpoint e) (λ done o1. Ends-pure (e, false) tt))

  endpoint_Ends :
      (key : String) (d : NormalizedDomain) (refresh : Bool)
      → Ends Anything Sought (get_endpoint s key d refresh)
  unfolding get_endpoint
  endpoint_Ends key d refresh =
      Ends-bind (cached_endpoint s key refresh) _ (cached_endpoint_Ends key refresh) again
    where
      again :
          (a : Option RegistryEndpoint)
          → Anything a
          → Ends Anything Sought (read_again s key d refresh a)
      again (some e) o = Ends-pure (e, true) tt
      again none o =
          Ends-bind (cached_endpoint s key refresh) _ (cached_endpoint_Ends key refresh)
            (λ a o1. discovered_Ends d a)

  queried_Ends :
      (d : NormalizedDomain) (errors : List String) (a : Completion (RegistryEndpoint × Bool))
      → EndsIn Anything Sought a
      → Ends (IsAnswer d) Refused (queried s d errors a)
  queried_Ends d errors (returned (e, known)) o =
      queries_Ends d e known s.protocol_order errors [] tt
  queried_Ends d errors (raised x) q = elim (Bool-cases (is_discovery_error x)) [
    | inl b ↦ rw b (Ends-raise _ (inl tt))
    | inr b ↦ rw b (Ends-raise x (ground arith))
  ]

  searched_Ends :
      (d : NormalizedDomain) (refresh : Bool) (found : Search)
      → Found d found
      → Ends (IsAnswer d) Refused (searched s d refresh found)
  searched_Ends d refresh (hit r) h = Ends-pure r h
  searched_Ends d refresh (missed errors) h =
      Ends-settle (get_endpoint s d.public_suffix d refresh) _
        (endpoint_Ends d.public_suffix d refresh) (queried_Ends d errors)

  named_Ends :
      (d : NormalizedDomain) (force refresh : Bool)
      → Ends (IsAnswer d) Refused (named s d force refresh)
  named_Ends d true refresh =
      Ends-bind (pure (missed [])) _ (Ends-pure {P = Found d} (missed []) tt)
        (searched_Ends d refresh)
  named_Ends d false refresh =
      Ends-bind (search_cache s d s.protocol_order []) _
        (Ends-weaken _ (search_Ends X after s c d s.protocol_order []) (λ e x. inr x))
        (searched_Ends d refresh)

  pub lookup_Ends :
      (name : String) (force refresh : Bool)
      → Ends
          (λ r. (s.normalize name ≡ returned r.domain) × IsDated r.info)
          (λ e. (s.normalize name ≡ raised e) ⊎ Refused e)
          (lookup s name force refresh)
  unfolding lookup
  lookup_Ends name force refresh =
      Ends-bind (call (s.normalize name)) _
        (Ends-call (s.normalize name) (normal (s.normalize name) refl))
        (λ d n.
          Ends-widen (named s d force refresh) (named_Ends d force refresh)
            (λ r h. (n ∙ ap (λ x. returned x) (sym h.0), h.1)) (λ e q. inr q))
    where
      normal :
          (a : Completion NormalizedDomain)
          → s.normalize name ≡ a
          → EndsIn
              (λ d. s.normalize name ≡ returned d)
              (λ e. (s.normalize name ≡ raised e) ⊎ Refused e)
              a
      normal (returned d) h = h
      normal (raised e) h = inl h

  -- From any state, a lookup returns a result for the domain that the name is normalized to, with the
  -- status "released" or the one that its dates give at the time when it was checked; or it raises what
  -- normalizing the name raises, LookupFailedError with no time to retry before `after`, or one of `X`.
  pub lookup_answers :
      (name : String) (force refresh : Bool) (w : W)
      → EndsIn
          (λ r. (s.normalize name ≡ returned r.domain) × IsDated r.info)
          (λ e. (s.normalize name ≡ raised e) ⊎ Refused e)
          (lookup s name force refresh w).0
  lookup_answers name force refresh w = (lookup_Ends name force refresh).good w
