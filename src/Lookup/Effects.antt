-- ===== src/Lookup/Effects.antt =====
-- Calls that wait: a call starts in a state of the world, and returns or raises in another. What
-- others do while it waits is part of the state in which it ends.
use domains_manager.Base.{if◌then◌else◌}
use domains_manager.Lookup.{Raised, is_exception}

pub data Completion {ℓ} (A : Type ℓ) : Type ℓ where
  returned : A → Completion A
  raised : Raised → Completion A

abbrev pub Action : Type 0 → Type 0 → Type 0
Action W A = W → Completion A × W

module _ {W A : Type 0} where
  abbrev pub pure : A → Action W A
  pure a w = (returned a, w)

  abbrev pub raise : Raised → Action W A
  raise e w = (raised e, w)

  -- A call of a function that does not wait.
  abbrev pub call : Completion A → Action W A
  call a w = (a, w)

-- try: m; except, and else: k
unfoldable pub settle : {W A B : Type 0} → Action W A → (Completion A → Action W B) → Action W B
settle m k w = k (m w).0 (m w).1

unfoldable pub next_of : {W A B : Type 0} → (A → Action W B) → Completion A → Action W B
next_of k (returned a) = k a
next_of k (raised e) = raise e

infixl 5 ◌>>=◌ ◌>>◌
unfoldable pub ◌>>=◌ : {W A B : Type 0} → Action W A → (A → Action W B) → Action W B
unfolding settle next_of
m >>= k = settle m (next_of k)

abbrev pub ◌>>◌ : {W B : Type 0} → Action W (Unit {0}) → Action W B → Action W B
m >> k = m >>= λ done. k

-- with suppress(Exception): m
abbrev pub dropped : {W : Type 0} → Completion (Unit {0}) → Action W (Unit {0})
dropped (returned t) = pure t
dropped (raised e) = if is_exception e then pure tt else raise e

unfoldable pub suppress : {W : Type 0} → Action W (Unit {0}) → Action W (Unit {0})
unfolding settle
suppress m = settle m dropped
