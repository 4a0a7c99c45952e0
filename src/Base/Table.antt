-- ===== src/Base/Table.antt =====
-- A database table as the list of its rows, with what the statements of the source do to it.
use Prim.Native.Nat.{ℕ, ◌+◌, ◌≤◌}
use mathlib.Core.Path.{◌≡◌, refl, subst}
use mathlib.Core.Bool.{Bool, true, false}
use mathlib.Core.Option.{Option, none, some}
use mathlib.Core.Logic.{◌≢◌, inl, inr}
use mathlib.Core.List.{List, [], ◌∷◌, ◌++◌, Mem, mem-cons_self, mem-cons_of_mem}
use native.Mathlib.Omega.{arith}
use domains_manager.Base.Tests.{if◌then◌else◌, Bool-cases}

module _ {ℓ} {R : Type ℓ} where
  -- SELECT ... WHERE p, with `scalar_one_or_none`.
  unfoldable pub find : (R → Bool) → List R → Option R
  find p [] = none
  find p (r ∷ rs) = if p r then some r else find p rs

  -- SELECT ... WHERE p.
  unfoldable pub select : (R → Bool) → List R → List R
  select p [] = []
  select p (r ∷ rs) = let rest = select p rs in if p r then r ∷ rest else rest

  -- UPDATE ... SET f WHERE p.
  unfoldable pub update : (R → Bool) → (R → R) → List R → List R
  update p f [] = []
  update p f (r ∷ rs) = (if p r then f r else r) ∷ update p f rs

  -- SELECT count(*) ... WHERE p.
  unfoldable pub count : (R → Bool) → List R → ℕ
  count p [] = 0
  count p (r ∷ rs) = (if p r then 1 else 0) + count p rs

  abbrev pub map_opt {κ} : {B : Type κ} → (R → B) → Option R → Option B
  map_opt f none = none
  map_opt f (some r) = some (f r)

  -- A row that is found satisfies the condition.
  pub find_sound : (p : R → Bool) (rs : List R) {r : R} → find p rs ≡ some r → p r ≡ true
  unfolding find
  find_sound p [] h = ground arith
  find_sound p (x ∷ rs) {r} h = elim (Bool-cases (p x)) [
    | inl e ↦ ground arith
    | inr e ↦ find_sound p rs (ground arith)
  ]

  -- A row that is found is one of the rows.
  pub find-Mem : (p : R → Bool) (rs : List R) {r : R} → find p rs ≡ some r → Mem r rs
  unfolding find
  find-Mem p [] h = absurd (ground arith)
  find-Mem p (x ∷ rs) {r} h = elim (Bool-cases (p x)) [
    | inl e ↦
        let same : x ≡ r = ground arith in subst (λ (y : R). Mem y (x ∷ rs)) same mem-cons_self
    | inr e ↦ mem-cons_of_mem x (find-Mem p rs (ground arith))
  ]

  -- Where no row satisfies the condition, an update does nothing.
  pub update_of_find-none :
      (p : R → Bool) (f : R → R) (rs : List R) → find p rs ≡ none → update p f rs ≡ rs
  unfolding find update
  update_of_find-none p f [] h = refl
  update_of_find-none p f (x ∷ rs) h = ground (arith, update_of_find-none p f rs)

  -- If `f` keeps `p`, what is found after an update is what was found before it, updated.
  pub find-update :
      (p q : R → Bool) (f : R → R) (rs : List R)
      → ((r : R) → q r ≡ true → p (f r) ≡ p r)
      → find p (update q f rs) ≡ map_opt (λ r. if q r then f r else r) (find p rs)
  unfolding find update
  find-update p q f [] h = refl
  find-update p q f (x ∷ rs) h = ground (arith, h x, find-update p q f rs h)

  -- No row satisfies `p` after every row that does was changed into one that does not.
  pub find-update-none :
      (p : R → Bool) (f : R → R) (rs : List R)
      → ((r : R) → p r ≡ true → p (f r) ≡ false)
      → find p (update p f rs) ≡ none
  unfolding find update
  find-update-none p f [] h = refl
  find-update-none p f (x ∷ rs) h = ground (arith, h x, find-update-none p f rs h)

  -- An update that keeps `p` on the rows that it writes keeps the number of rows with `p`.
  pub count-update :
      (p q : R → Bool) (f : R → R) (rs : List R)
      → ((r : R) → q r ≡ true → p (f r) ≡ p r)
      → count p (update q f rs) ≡ count p rs
  unfolding count update
  count-update p q f [] h = refl
  count-update p q f (x ∷ rs) h = ground (arith, h x, count-update p q f rs h)

  -- An update that makes no row newly satisfy `p` does not raise the number of rows with `p`.
  pub count-update-le :
      (p q : R → Bool) (f : R → R) (rs : List R)
      → ((r : R) → q r ≡ true → p (f r) ≡ true → p r ≡ true)
      → count p (update q f rs) ≤ count p rs
  unfolding count update
  count-update-le p q f [] h = omega arith
  count-update-le p q f (x ∷ rs) h = ground (arith, h x, count-update-le p q f rs h)

  pub count-append : (p : R → Bool) (xs ys : List R) → count p (xs ++ ys) ≡ count p xs + count p ys
  unfolding count
  count-append p [] ys = omega arith
  count-append p (x ∷ xs) ys = ground (arith, count-append p xs ys)

  pub count_of_find-none : (p : R → Bool) (rs : List R) → find p rs ≡ none → count p rs ≡ 0
  unfolding count find
  count_of_find-none p [] h = refl
  count_of_find-none p (x ∷ rs) h = ground (arith, count_of_find-none p rs)

  pub count_of_find : (p : R → Bool) (rs : List R) {x : R} → find p rs ≡ some x → 1 ≤ count p rs
  unfolding count find
  count_of_find p [] h = absurd (ground arith)
  count_of_find p (y ∷ rs) {x} h = ground (arith, count_of_find p rs {x = x})

  -- A row that another condition found is found.
  pub find_other :
      (p q : R → Bool) (rs : List R) {x : R} → find p rs ≡ some x → q x ≡ true → find q rs ≢ none
  unfolding find
  find_other p q [] h k e = absurd (ground arith)
  find_other p q (y ∷ rs) {x} h k e = ground (arith, find_other p q rs {x = x})

pub find_of_count_zero {ℓ} :
    {R : Type ℓ} (p q : R → Bool) (rs : List R)
    → ((y : R) → q y ≡ true → p y ≡ true)
    → count p rs ≡ 0
    → find q rs ≡ none
unfolding find count
find_of_count_zero p q [] qp z = refl
find_of_count_zero p q (y ∷ rs) qp z = ground (arith, qp y, find_of_count_zero p q rs qp)

pub find-update_absent {ℓ} :
    {R : Type ℓ} (p q r : R → Bool) (f : R → R) (rs : List R)
    → ((y : R) → q y ≡ true → p y ≡ true)
    → ((y : R) → r y ≡ true → p y ≡ true)
    → count p rs ≡ 0
    → find r (update q f rs) ≡ none
unfolding find update count
find-update_absent p q r f [] qp rp z = refl
find-update_absent p q r f (y ∷ rs) qp rp z =
    ground (arith, qp y, rp y, find-update_absent p q r f rs qp rp)

-- Where one row at most satisfies `p`, and `q` implies `p`, an update of the row with `q` meets
-- every row with `p`.
pub find-update_unique {ℓ} :
    {R : Type ℓ} (p q r : R → Bool) (f : R → R) (rs : List R) {x : R}
    → ((y : R) → q y ≡ true → p y ≡ true)
    → ((y : R) → r y ≡ true → p y ≡ true)
    → ((y : R) → q y ≡ true → r (f y) ≡ false)
    → count p rs ≤ 1
    → find q rs ≡ some x
    → find r (update q f rs) ≡ none
unfolding find update count
find-update_unique p q r f [] qp rp off h e = ground arith
find-update_unique p q r f (y ∷ rs) {x} qp rp off h e = ground (
  arith,
  qp y,
  rp y,
  off y,
  find_of_count_zero p q rs qp,
  find-update_absent p q r f rs qp rp,
  find-update_unique p q r f rs {x = x} qp rp off,
)
