-- ===== src/Records/Newest.antt =====
-- The fold that keeps the newest record of a key.
use domains_manager.Base.{
  ◌≡◌, refl, ◌⊎◌, true, false, ◌&&◌, Option, none, some, List, [], ◌∷◌, eqb, ◌==◌, if◌then◌else◌,
  none_or, some_and, nat_eq, pair_eq, arith, any, inl, inr,
}
use domains_manager.Records.{Key, Stored, is_newer}

-- A record of the key replaces a current one that it is newer than.
unfoldable pub pick : Key → Stored → Option Stored → Option Stored
pick key r c = if (r.key == key) && none_or c (is_newer r) then some r else c

pub pick_new :
    (key : Key) (r : Stored) (o : Option Stored)
    → (r.key == key) ≡ true
    → none_or o (is_newer r) ≡ true
    → pick key r o ≡ some r
unfolding pick
pick_new key r o hit e = rw (hit, e, pick) refl

pub pick_other :
    (key : Key) (r : Stored) (o : Option Stored) → (r.key == key) ≡ false → pick key r o ≡ o
unfolding pick
pick_other key r o miss = rw (miss, pick) refl

pub pick_old :
    (key : Key) (r : Stored) (o : Option Stored) → none_or o (is_newer r) ≡ false → pick key r o ≡ o
unfolding pick
pick_old key r o e = ground (arith, e)

unfoldable pub newest_from : Key → List Stored → Option Stored → Option Stored
newest_from key [] c = c
newest_from key (r ∷ rs) c = newest_from key rs (pick key r c)

-- What the fold keeps: nothing that it saw is newer.
pub newest_lem :
    (key : Key) (rs : List Stored) (o : Option Stored) (x : Stored)
    → newest_from key rs o ≡ some x
    → (some_and o (λ y. is_newer y x) ≡ false)
      × (any (λ r. (r.key == key) && is_newer r x) rs ≡ false)
unfolding newest_from pick
newest_lem key [] none x h = absurd (ground arith)
newest_lem key [] (some y) x h = (ground arith, refl)
newest_lem key (r ∷ rs) none x h =
    let (a, b) = newest_lem key rs (pick key r none) x h in (refl, ground arith)
newest_lem key (r ∷ rs) (some y) x h =
    let (a, b) = newest_lem key rs (pick key r (some y)) x h in (ground arith, ground arith)

-- It is what was there before, or one of the records of the key.
pub newest_source :
    (key : Key) (rs : List Stored) (o : Option Stored) (x : Stored)
    → newest_from key rs o ≡ some x
    → (o ≡ some x) ⊎ (any (λ r. (r.key == key) && eqb r.record_id x.record_id) rs ≡ true)
unfolding newest_from pick
newest_source key [] o x h = inl h
newest_source key (r ∷ rs) none x h = elim (newest_source key rs (pick key r none) x h) [
  | inl e ↦ inr (ground arith)
  | inr e ↦ inr (ground arith)
]
newest_source key (r ∷ rs) (some y) x h = elim (newest_source key rs (pick key r (some y)) x h) [
  | inl e ↦ ground arith
  | inr e ↦ inr (ground arith)
]

pub newest_none :
    (key : Key) (rs : List Stored) (o : Option Stored)
    → newest_from key rs o ≡ none
    → (o ≡ none) × (any (λ r. r.key == key) rs ≡ false)
unfolding newest_from pick
newest_none key [] o h = (h, refl)
newest_none key (r ∷ rs) o h =
    let (a, b) = newest_none key rs (pick key r o) h in (ground arith, ground arith)
