-- ===== src/Lookup/Finals.antt =====
-- What the last steps of `lookup` return and raise, from what the parts of the service raise: parsing, and
-- the document of the registrar.
use domains_manager.Base.{
  ℕ, ◌≤◌, ◌≡◌, refl, String, Bool, true, false, Option, none, some, [], ◌⊎◌, inl, inr, ◌&&◌, arith,
  All, str_eq, eq_iff, Bool-cases, Option-cases,
}
use domains_manager.Lookup.{
  Protocol, rdap, whois, is_rdap, Role, registrar, Response, RegistryEndpoint, NormalizedDomain,
  DomainInfo, Raised, other_exception, cancelled, upstream_limited, is_exception, is_parse_error,
  is_lookup_error, is_discovery_error, status_value, determine_expiration_status,
}
use domains_manager.Lookup.Effects.{Completion, returned, raised, Action, call, ◌>>=◌}
use domains_manager.Lookup.Service.{
  DomainLookupService, tick, with_expiration_status, merged, parse_response, fetched_related,
  registrar_document, alone, enriched, enrich_rdap, finalize_lookup, retry_times_of,
}
use domains_manager.Lookup.Ends.{
  EndsIn, Ends, Anything, Ends-pure, Ends-raise, Ends-call, Ends-settle, Ends-bind, Ends-weaken,
}

-- The status of a domain that is released, or that of its dates when it was checked.
abbrev pub IsDated : DomainInfo → Type 0
IsDated info =
    (info.expiration_status ≡ "released")
    ⊎ ((at : ℕ) × (info.expiration_checked_at ≡ some at)
        × (info.expiration_status
            ≡ status_value (
                determine_expiration_status true info.dates.registry_expires_at
                  info.dates.registrar_expires_at at)))

-- What the parts of a service may raise: the exceptions that the service expects of them, none that
-- asks for a retry before `after`, and those of `X`.
module _ (X : Raised → Type 0) (after : ℕ) where
  abbrev pub IsLate : Raised → Type 0
  IsLate e = All (λ t. after ≤ t) (retry_times_of e)

  abbrev pub OnlyIf : (Raised → Bool) → Raised → Type 0
  OnlyIf test e = IsLate e × ((test e ≡ true) ⊎ X e)

  pub record Expects {W : Type 0} (s : DomainLookupService W) : Type 0 where
    pub get_fresh :
        (name : String) (p : Protocol) (now : ℕ) (role : Option Role)
        → Ends Anything (OnlyIf (λ e. false)) (s.get_fresh name p now role)
    pub save : (r : Response) → Ends Anything (OnlyIf is_lookup_error) (s.save r)
    pub mark_unusable :
        (r : Response) (why : String) → Ends Anything (OnlyIf is_exception) (s.mark_unusable r why)
    pub get_fresh_endpoint :
        (key : String) (now : ℕ)
        → Ends Anything (OnlyIf is_discovery_error) (s.get_fresh_endpoint key now)
    pub save_endpoint :
        (e : RegistryEndpoint) → Ends Anything (OnlyIf is_discovery_error) (s.save_endpoint e)
    pub discover : (d : NormalizedDomain) → Ends Anything (OnlyIf is_discovery_error) (s.discover d)
    pub query :
        (p : Protocol) (d : NormalizedDomain) (e : RegistryEndpoint)
        → Ends Anything (OnlyIf is_lookup_error) (s.query p d e)
    pub query_related :
        (related : NormalizedDomain → String → Action W Response)
        → s.query_related ≡ some related
        → (d : NormalizedDomain) (url : String)
        → Ends Anything (OnlyIf is_lookup_error) (related d url)
    pub parse :
        (p : Protocol) (r : Response) (d : NormalizedDomain)
        → EndsIn Anything (OnlyIf is_parse_error) (s.parse p r d)
    pub gate :
        (run : String
          → String
          → Action W (Response × DomainInfo)
          → Action W (Response × DomainInfo))
        → s.gate ≡ some run
        → (p key : String) (m : Action W (Response × DomainInfo))
        → Ends Anything (OnlyIf is_lookup_error) m
        → Ends Anything (OnlyIf is_lookup_error) (run p key m)

  abbrev pub Asked : Raised → Type 0
  Asked = OnlyIf is_lookup_error

  -- What is left after the handler of `_enrich_rdap`.
  abbrev pub IsLeft : Raised → Type 0
  IsLeft e = (retry_times_of e ≡ []) × X e

module _ (X : Raised → Type 0) (after : ℕ) where
  pub lookup_of_parse :
      (e : Raised) → OnlyIf X after is_parse_error e → OnlyIf X after is_lookup_error e
  lookup_of_parse (upstream_limited p k until) h = (h.0, inl refl)
  lookup_of_parse (other_exception text) h = (h.0, ground arith)
  lookup_of_parse (cancelled text) h = (h.0, ground arith)
  lookup_of_parse _ h = (h.0, inl refl)

  pub none_lookup : (e : Raised) → OnlyIf X after (λ x. false) e → OnlyIf X after is_lookup_error e
  none_lookup e h = (h.0, ground arith)

  unexpected_rest :
      (e : Raised) → is_lookup_error e ≡ false → OnlyIf X after is_lookup_error e → IsLeft X after e
  unexpected_rest (upstream_limited p k until) b h = absurd (cc)
  unexpected_rest (other_exception text) b h = (refl, ground arith)
  unexpected_rest (cancelled text) b h = (refl, ground arith)
  unexpected_rest _ b h = absurd (cc)

module _ {W : Type 0} (s : DomainLookupService W) (Q : Raised → Type 0) where
  pub tick_Ends : Ends Anything Q (tick s)
  tick_Ends = record { good = λ w. tt }

  with_expiration_status-IsDated :
      (info : DomainInfo) → Ends IsDated Q (with_expiration_status s info)
  unfolding with_expiration_status ◌>>=◌
  with_expiration_status-IsDated info = record { good = λ w. inr (_, refl, refl) }

  alone-IsDated : (info : DomainInfo) → Ends (λ r. IsDated r.0) Q (alone s info)
  alone-IsDated info =
      Ends-bind (with_expiration_status s info) _ (with_expiration_status-IsDated info)
        (λ updated h. Ends-pure (updated, none) h)

module _ (X : Raised → Type 0) (after : ℕ) {W : Type 0} (s : DomainLookupService W)
    (c : Expects X after s) where
  abbrev pub Dated : DomainInfo × Option Response → Type 0
  Dated r = IsDated r.0

  pub parse_Ends :
      (p : Protocol) (r : Response) (d : NormalizedDomain)
      → Ends Anything (OnlyIf X after is_parse_error) (parse_response s p r d)
  unfolding parse_response ◌>>=◌
  parse_Ends p r d = elim (Bool-cases (is_rdap p && s.is_not_found_response r)) [
    | inl b ↦ rw b (record { good = λ w. tt })
    | inr b ↦ rw b (Ends-call (s.parse p r d) (c.parse p r d))
  ]

  fetched_Ends :
      (related : NormalizedDomain → String → Action W Response)
      → s.query_related ≡ some related
      → (d : NormalizedDomain) (url : String) (cached : Option Response)
      → Ends Anything (Asked X after) (fetched_related s related d url cached)
  unfolding fetched_related
  fetched_Ends related e d url (some r) = Ends-pure r tt
  fetched_Ends related e d url none =
      Ends-bind (related d url) _ (c.query_related related e d url)
        (λ r o. Ends-bind (s.save r) _ (c.save r) (λ done o1. Ends-pure r tt))

  registrar_Ends :
      (related : NormalizedDomain → String → Action W Response)
      → s.query_related ≡ some related
      → (d : NormalizedDomain) (url : String)
      → Ends Anything (Asked X after) (registrar_document s related d url)
  unfolding registrar_document
  registrar_Ends related e d url = Ends-bind (tick s) _ (tick_Ends s (Asked X after)) (λ now o.
      Ends-bind (s.get_fresh d.registrable_domain rdap now (some registrar)) _
        (Ends-weaken _ (c.get_fresh d.registrable_domain rdap now (some registrar))
          (none_lookup X after))
        (λ cached o1.
          Ends-bind (fetched_related s related d url cached) _ (fetched_Ends related e d url cached)
            (λ r o2.
              Ends-bind (call (s.parse rdap r d)) _
                (Ends-weaken _ (Ends-call _ (c.parse rdap r d)) (lookup_of_parse X after))
                (λ info o3. Ends-pure (r, info) tt))))

  enriched-IsDated :
      (info : DomainInfo) (a : Completion (Response × DomainInfo))
      → EndsIn Anything (Asked X after) a
      → Ends Dated (IsLeft X after) (enriched s info a)
  enriched-IsDated info (returned (r, found)) o =
      Ends-bind (with_expiration_status s (merged info found)) _
        (with_expiration_status-IsDated s (IsLeft X after) (merged info found))
        (λ updated h. Ends-pure (updated, some r) h)
  enriched-IsDated info (raised e) q = elim (Bool-cases (is_lookup_error e)) [
    | inl b ↦ rw b (alone-IsDated s (IsLeft X after) info)
    | inr b ↦ rw b (Ends-raise e (unexpected_rest X after e b q))
  ]

  enrich-IsDated :
      (d : NormalizedDomain) (info : DomainInfo)
      → Ends Dated (IsLeft X after) (enrich_rdap s d info)
  unfolding enrich_rdap
  enrich-IsDated d info = elim (Bool-cases (str_eq info.expiration_status "released")) [
    | inl b ↦ rw b (Ends-pure (info, none) (inl ((eq_iff _ _).0 b)))
    | inr b ↦ rw b (elim (Option-cases info.registrar_rdap_url) [
      | inl u ↦ rw u (alone-IsDated s (IsLeft X after) info)
      | inr (url, u) ↦ rw u (elim (Option-cases s.query_related) [
        | inl q ↦ rw q (alone-IsDated s (IsLeft X after) info)
        | inr (related, q) ↦ rw q (
            Ends-settle (registrar_document s related d url) _ (registrar_Ends related q d url)
              (enriched-IsDated info))
      ])
    ])
  ]

  pub finalize-IsDated :
      (p : Protocol) (d : NormalizedDomain) (info : DomainInfo)
      → Ends Dated (IsLeft X after) (finalize_lookup s p d info)
  unfolding finalize_lookup
  finalize-IsDated rdap d info = enrich-IsDated d info
  finalize-IsDated whois d info = alone-IsDated s (IsLeft X after) info
