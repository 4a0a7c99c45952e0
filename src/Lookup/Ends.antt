-- ===== src/Lookup/Ends.antt =====
-- What a call ends in: a value with a property, or an exception with another. The rules follow the
-- source: a property of a `do` block comes from those of its steps.
use domains_manager.Base.{◌≡◌, refl, Bool, true, false, if◌then◌else◌}
use domains_manager.Lookup.{Raised, is_exception}
use domains_manager.Lookup.Effects.{
  Completion, returned, raised, Action, pure, raise, call, settle, next_of, ◌>>=◌, dropped,
  suppress,
}

abbrev pub EndsIn : {A : Type 0} → (A → Type 0) → (Raised → Type 0) → Completion A → Type 0
EndsIn P Q (returned a) = P a
EndsIn P Q (raised e) = Q e

-- Every call of `m` ends in a value with `P`, or raises an exception with `Q`.
pub record Ends {W A : Type 0} (P : A → Type 0) (Q : Raised → Type 0) (m : Action W A)
    : Type 0 where
  pub good : (w : W) → EndsIn P Q (m w).0

abbrev pub Anything : {A : Type 0} → A → Type 0
Anything a = Unit

module _ {W A : Type 0} {P : A → Type 0} {Q : Raised → Type 0} where
  pub Ends-pure : (a : A) → P a → Ends {W = W} P Q (pure a)
  Ends-pure a h = record { good = λ w. h }

  pub Ends-raise : (e : Raised) → Q e → Ends {W = W} P Q (raise e)
  Ends-raise e h = record { good = λ w. h }

  pub Ends-call : (a : Completion A) → EndsIn P Q a → Ends {W = W} P Q (call a)
  Ends-call a h = record { good = λ w. h }

  pub Ends-if :
      (b : Bool) (m n : Action W A)
      → (b ≡ true → Ends P Q m)
      → (b ≡ false → Ends P Q n)
      → Ends P Q (if b then m else n)
  Ends-if true m n h k = h refl
  Ends-if false m n h k = k refl

module _ {W A B : Type 0} {P : A → Type 0} {Q : Raised → Type 0} {P' : B → Type 0}
    {Q' : Raised → Type 0} where
  pub Ends-settle :
      (m : Action W A) (k : Completion A → Action W B)
      → Ends P Q m
      → ((a : Completion A) → EndsIn P Q a → Ends P' Q' (k a))
      → Ends P' Q' (settle m k)
  unfolding settle
  Ends-settle m k h next = record { good = λ w. (next (m w).0 (h.good w)).good (m w).1 }

module _ {W A B : Type 0} {P : A → Type 0} {Q : Raised → Type 0} {P' : B → Type 0} where
  pub Ends-bind :
      (m : Action W A) (k : A → Action W B)
      → Ends P Q m
      → ((a : A) → P a → Ends P' Q (k a))
      → Ends P' Q (m >>= k)
  unfolding ◌>>=◌
  Ends-bind m k h next = Ends-settle m (next_of k) h step
    where
      step : (a : Completion A) → EndsIn P Q a → Ends P' Q (next_of k a)
      step (returned a) p = next a p
      step (raised e) q = Ends-raise e q

module _ {W A : Type 0} {P P' : A → Type 0} {Q Q' : Raised → Type 0} where
  pub Ends-widen :
      (m : Action W A)
      → Ends P Q m
      → ((a : A) → P a → P' a)
      → ((e : Raised) → Q e → Q' e)
      → Ends P' Q' m
  Ends-widen m h more wide = record { good = λ w. still (m w).0 (h.good w) }
    where
      still : (a : Completion A) → EndsIn P Q a → EndsIn P' Q' a
      still (returned a) p = more a p
      still (raised e) q = wide e q

module _ {W A : Type 0} {P : A → Type 0} {Q Q' : Raised → Type 0} where
  pub Ends-weaken : (m : Action W A) → Ends P Q m → ((e : Raised) → Q e → Q' e) → Ends P Q' m
  Ends-weaken m h wide = Ends-widen m h (λ a p. p) wide

-- What `suppress` lets through is no Exception.
pub Ends-suppress :
    {W : Type 0} {Q : Raised → Type 0} (m : Action W (Unit {0}))
    → Ends Anything Q m
    → Ends {W = W} Anything (λ e. (is_exception e ≡ false) × Q e) (suppress m)
unfolding suppress
Ends-suppress {W} {Q} m h = Ends-settle m dropped h step
  where
    step :
        (a : Completion (Unit {0}))
        → EndsIn Anything Q a
        → Ends {W = W} Anything (λ e. (is_exception e ≡ false) × Q e) (dropped a)
    step (returned t) p = Ends-pure t tt
    step (raised e) q =
        Ends-if (is_exception e) (pure tt) (raise e) (λ b. Ends-pure tt tt)
          (λ b. Ends-raise e (b, q))
