-- ===== src/Lookup/Outcomes.antt =====
-- The outcomes of DomainLookup (domainsmanager_lookup/facade.py).
use domains_manager.Base.{
  ℕ, ◌≤◌, ◌≡◌, refl, subst, String, Bool, true, false, Option, none, some, List, [], ◌∷◌, ◌⊎◌, inl,
  inr, arith,
}
use domains_manager.Tasks.Service.{rate_limited}
use domains_manager.Lookup.{LookupResult, Raised, lookup_failed, normalization_error}
use domains_manager.Lookup.Effects.{Completion, returned, raised}
use domains_manager.Lookup.Service.{DomainLookupService}
use domains_manager.Lookup.Queries.{lookup}
use domains_manager.Lookup.Facade.{
  LookupOptions, LookupOutcome, has_one_result, classify_error, outcome_of, lookup_one,
  lookup_names,
}
use domains_manager.Lookup.Ends.{
  EndsIn, Ends, Anything, Ends-raise, Ends-pure, Ends-settle, Ends-bind, Ends-widen,
}
use domains_manager.Lookup.Finals.{Expects}
use domains_manager.Lookup.Answers.{IsFailure, lookup_Ends}

-- An outcome for the name, which its validator lets pass. Its time to retry, if it has one, is not
-- before `after`, and its error is then the rate limit.
pub record IsOutcome (after : ℕ) (name : String) (o : LookupOutcome) : Type 0 where
  pub asked : o.input_name ≡ name
  pub valid : has_one_result o ≡ true
  pub retried :
      (o.retry_after ≡ none)
      ⊎ ((until : ℕ) × (o.retry_after ≡ some until)
          × (after ≤ until)
          × (o.error_code ≡ some rate_limited))

abbrev pub is_normalization_error : Raised → Bool
is_normalization_error (normalization_error text) = true
is_normalization_error _ = false

module _ (X : Raised → Type 0) (after : ℕ) {W : Type 0} (casefold : String → String)
    (s : DomainLookupService W) (c : Expects X after s)
    (normal : (name : String)
      → EndsIn Anything (λ e. (is_normalization_error e ≡ true) ⊎ X e) (s.normalize name))
    (foreign : (text : String) (until : Option ℕ) → ¬ X (lookup_failed text until))
    (options : LookupOptions) where
  abbrev Passed : Raised → Type 0
  Passed e = (is_normalization_error e ≡ true) ⊎ (IsFailure after e ⊎ X e)

  narrowed :
      (name : String) (e : Raised)
      → (s.normalize name ≡ raised e) ⊎ (IsFailure after e ⊎ X e)
      → Passed e
  narrowed name e (inl h) =
      elim (subst (EndsIn Anything (λ x. (is_normalization_error x ≡ true) ⊎ X x)) h
        (normal name)) [ inl b ↦ inl b | inr x ↦ inr (inr x) ]
  narrowed name e (inr h) = inr h

  outcome_of-IsOutcome :
      (name : String) (a : Completion LookupResult)
      → EndsIn Anything Passed a
      → Ends {W = W} (IsOutcome after name) X (outcome_of casefold name a)
  unfolding classify_error
  outcome_of-IsOutcome name (returned r) h =
      Ends-pure _ (record { asked = refl; valid = refl; retried = inl refl })
  outcome_of-IsOutcome name (raised (normalization_error text)) h =
      Ends-pure _ (record { asked = refl; valid = refl; retried = inl refl })
  outcome_of-IsOutcome name (raised (lookup_failed text none)) h =
      Ends-pure _ (record { asked = refl; valid = refl; retried = inl refl })
  outcome_of-IsOutcome name (raised (lookup_failed text (some until))) h = Ends-pure _ (record {
    asked = refl;
    valid = refl;
    retried = inr (until, refl, ground (arith, foreign text (some until)), refl);
  })
  outcome_of-IsOutcome name (raised e) h = Ends-raise _ (ground arith)

  one_Ends : (name : String) → Ends (IsOutcome after name) X (lookup_one casefold s options name)
  unfolding lookup_one
  one_Ends name =
      Ends-settle (lookup s name options.force_refresh options.refresh_endpoint) _
        (Ends-widen _ (lookup_Ends X after s c name options.force_refresh options.refresh_endpoint)
          (λ r h. tt) (narrowed name))
        (outcome_of-IsOutcome name)

  abbrev pub AreOutcomes : List String → List LookupOutcome → Type 0
  AreOutcomes [] [] = Unit
  AreOutcomes (name ∷ names) (o ∷ os) = IsOutcome after name o × AreOutcomes names os
  AreOutcomes _ _ = ⊥

  names_Ends :
      (names : List String) → Ends (AreOutcomes names) X (lookup_names casefold s options names)
  unfolding lookup_names
  names_Ends [] = Ends-pure [] tt
  names_Ends (name ∷ names) =
      Ends-bind (lookup_one casefold s options name) _ (one_Ends name) (λ o h.
        Ends-bind (lookup_names casefold s options names) _ (names_Ends names)
          (λ os hs. Ends-pure (o ∷ os) (h, hs)))

  -- A call of `lookup` that returns has one outcome for each name, in their order.
  pub lookup_outcomes :
      (names : List String) (w : W)
      → EndsIn (AreOutcomes names) X (lookup_names casefold s options names w).0
  lookup_outcomes names w = (names_Ends names).good w
