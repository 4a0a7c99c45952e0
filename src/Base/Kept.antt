-- ===== src/Base/Kept.antt =====
-- Rows that stay in a table with a property, whatever is inserted and updated.
use mathlib.Core.Path.{◌≡◌, refl}
use mathlib.Core.Bool.{Bool, true}
use mathlib.Core.Option.{none, some}
use mathlib.Core.Logic.{inl, inr}
use mathlib.Core.List.{List, [], ◌∷◌, ◌++◌}
use native.Mathlib.Omega.{arith}
use domains_manager.Base.Tests.{Bool-cases}
use domains_manager.Base.Table.{find, update, find-update}

pub find-append {ℓ} :
    {R : Type ℓ} (p : R → Bool) (xs ys : List R) {x : R}
    → find p xs ≡ some x
    → find p (xs ++ ys) ≡ some x
unfolding find
find-append p [] ys h = absurd (ground arith)
find-append p (y ∷ xs) ys {x} h = ground (arith, find-append p xs ys {x = x})

pub find-append_new {ℓ} :
    {R : Type ℓ} (p : R → Bool) (xs ys : List R) → find p xs ≡ none → find p (xs ++ ys) ≡ find p ys
unfolding find
find-append_new p [] ys h = refl
find-append_new p (y ∷ xs) ys h = ground (arith, find-append_new p xs ys)

module _ {ℓ κ} {R : Type ℓ} (p : R → Bool) (P : R → Type κ) where
  -- The row with `p` is there, and has the property.
  abbrev pub IsKept : List R → Type (ℓ ⊔ κ)
  IsKept rs = (r : R) × (find p rs ≡ some r) × P r

  pub IsKept-append : (rs ys : List R) → IsKept rs → IsKept (rs ++ ys)
  IsKept-append rs ys (r, e, h) = (r, find-append p rs ys e, h)

  pub IsKept-update :
      (q : R → Bool) (f : R → R) (rs : List R)
      → ((r : R) → q r ≡ true → p (f r) ≡ p r)
      → ((r : R) → q r ≡ true → P r → P (f r))
      → IsKept rs
      → IsKept (update q f rs)
  IsKept-update q f rs same keeps (r, e, h) = elim (Bool-cases (q r)) [
    | inl t ↦ (f r, rw (find-update p q f rs same, e, t) refl, keeps r t h)
    | inr t ↦ (r, rw (find-update p q f rs same, e, t) refl, h)
  ]
