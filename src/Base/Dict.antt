-- ===== src/Base/Dict.antt =====
-- Python's `dict` in insertion order, and a table under its primary key.
use mathlib.Core.Path.{◌≡◌, refl, ap}
use mathlib.Core.Bool.{Bool, true}
use mathlib.Core.Option.{Option, none, some}
use mathlib.Core.List.{List, [], ◌∷◌}
use native.Mathlib.Omega.{arith}
use domains_manager.Base.Tests.{Eq, ◌==◌, if◌then◌else◌}

abbrev pub Dict {ℓ κ} : Type ℓ → Type κ → Type (ℓ ⊔ κ)
Dict K V = List (K × V)

pub beq_refl {ℓ} : {K : Type ℓ} ⦃e : Eq K⦄ (k : K) → (k == k) ≡ true
beq_refl ⦃e⦄ k = (e.is_same_iff k k).1 refl

module _ {ℓ κ} {K : Type ℓ} {V : Type κ} ⦃q : Eq K⦄ where
  -- d.get(k)
  unfoldable pub get : K → Dict K V → Option V
  get k [] = none
  get k ((j, v) ∷ d) = if j == k then some v else get k d

  -- d[k] = v
  unfoldable pub put : K → V → Dict K V → Dict K V
  put k v [] = (k, v) ∷ []
  put k v ((j, w) ∷ d) = if j == k then (j, v) ∷ d else (j, w) ∷ put k v d

  -- {k: v for k, v in d.items() if p(v)}, and del d[k] for the others
  unfoldable pub keep : (K → V → Bool) → Dict K V → Dict K V
  keep p [] = []
  keep p ((j, v) ∷ d) = let rest = keep p d in if p j v then (j, v) ∷ rest else rest

  pub get-put :
      (k j : K) (v : V) (d : Dict K V) → get j (put k v d) ≡ (if k == j then some v else get j d)
  unfolding get put
  get-put k j v [] = refl
  get-put k j v ((i, w) ∷ d) =
      ground (arith, q.is_same_iff k j, q.is_same_iff i k, q.is_same_iff i j, get-put k j v d)

  pub get-put_self : (k : K) (v : V) (d : Dict K V) → get k (put k v d) ≡ some v
  get-put_self k v d = simp (get-put, beq_refl)

  -- A value that passes the test stays.
  pub get-keep :
      (k : K) (v : V) (p : K → V → Bool) (d : Dict K V)
      → get k d ≡ some v
      → p k v ≡ true
      → get k (keep p d) ≡ some v
  unfolding get keep
  get-keep k v p [] h e = absurd (ground arith)
  get-keep k v p ((j, w) ∷ d) h e =
      ground (arith, get-keep k v p d, λ (s : j ≡ k). ap (λ i. p i v) s, q.is_same_iff j k)

  pub get-keep_sound :
      (k : K) (v : V) (p : K → V → Bool) (d : Dict K V) → get k (keep p d) ≡ some v → p k v ≡ true
  unfolding get keep
  get-keep_sound k v p [] h = absurd (ground arith)
  get-keep_sound k v p ((j, w) ∷ d) h =
      ground (arith, get-keep_sound k v p d, λ (s : j ≡ k). ap (λ i. p i v) s, q.is_same_iff j k)
