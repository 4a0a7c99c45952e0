-- ===== src/Records/Current.antt =====
-- The current record is the newest published one, in whatever order records are published.
use domains_manager.Base.{
  ℕ, ◌≡◌, refl, sym, ap, subst, ◌∙◌, true, false, ◌&&◌, Option, none, some, List, [], ◌∷◌, eqb,
  ◌==◌, if◌then◌else◌, none_or, nat_eq, pair_eq, pair_beq_iff, arith, All, any, inl, inr,
  Option-cases, Bool-cases, eqb_iff,
}
use domains_manager.Base.Dict.{get, put, get-put, get-put_self}
use domains_manager.Records.Newest.{
  pick, pick_new, pick_other, pick_old, newest_from, newest_lem, newest_source, newest_none,
}
use domains_manager.Records.{
  Key, Stored, Store, empty, get_current, is_newer, kept, head_of, publish,
}

-- The store after records were published in this order.
unfoldable pub publish_all : List Stored → Store → Store
publish_all [] s = s
publish_all (r ∷ rs) s = publish_all rs (publish r s)

-- No record is unusable, an identifier stands for one record, and a head for a record of its key.
abbrev pub IsConsistent : (ℕ → Stored) → Store → Type 0
IsConsistent catalog s =
    (s.unusable ≡ [])
    × ((id : ℕ) (r : Stored) → get id s.records ≡ some r → r ≡ catalog id)
    × ((key : Key) (id : ℕ) → get key s.heads ≡ some id → get id s.records ≡ some (catalog id))

module _ (catalog : ℕ → Stored) (r : Stored) (s : Store) (own : r ≡ catalog r.record_id)
    (c : IsConsistent catalog s) where
  kept_own : get r.record_id (kept r s.records) ≡ some r
  unfolding kept
  kept_own = elim (Option-cases (get r.record_id s.records)) [
    | inl e ↦ rw (e, kept) (get-put_self r.record_id r s.records)
    | inr (x, e) ↦ rw (e, kept) (e ∙ ap some (c.1 r.record_id x e ∙ sym own))
  ]

  kept_old : (id : ℕ) (x : Stored) → get id s.records ≡ some x → get id (kept r s.records) ≡ some x
  unfolding kept
  kept_old id x h = elim (Option-cases (get r.record_id s.records)) [
    | inl e ↦ elim (Bool-cases (eqb r.record_id id)) [
      | inl hit ↦
          let same = (eqb_iff r.record_id id).0 hit in
          absurd (ground (arith, sym h ∙ ap (λ i. get i s.records) (sym same) ∙ e))
      | inr miss ↦ rw (e, kept) (get-put r.record_id id r s.records ∙ rw miss h)
    ]
    | inr (y, e) ↦ rw (e, kept) h
  ]

  kept_sound : (id : ℕ) (x : Stored) → get id (kept r s.records) ≡ some x → x ≡ catalog id
  unfolding kept
  kept_sound id x h = elim (Option-cases (get r.record_id s.records)) [
    | inl e ↦ elim (Bool-cases (eqb r.record_id id)) [
      | inl hit ↦
          let same = (eqb_iff r.record_id id).0 hit in
          let k : some r ≡ some x =
            sym (get-put r.record_id id r s.records ∙ rw hit refl) ∙ (rw (e, kept) at h) in
          let k' : r ≡ x = ground arith in sym k' ∙ own ∙ ap catalog same
      | inr miss ↦
          c.1 id x (sym (get-put r.record_id id r s.records ∙ rw miss refl) ∙ (rw (e, kept) at h))
    ]
    | inr (y, e) ↦ c.1 id x (rw (e, kept) at h)
  ]

  -- What the head of a key was is found among the records as they are now.
  head-kept : (key : Key) → head_of key s.heads (kept r s.records) ≡ head_of key s.heads s.records
  head-kept key = elim (Option-cases (get key s.heads)) [
    | inl e ↦ rw (e, head_of) refl
    | inr (id, e) ↦
        let old = c.2 key id e in rw (e, head_of, old, kept_old id (catalog id) old) refl
  ]

  current-head : (key : Key) → get_current key s ≡ head_of key s.heads s.records
  unfolding get_current get
  current-head key = ground (arith, c.0)

  publish_parts : (publish r s) ≡ (
      if none_or (head_of r.key s.heads s.records) (is_newer r)
      then record s { records = kept r s.records; heads = put r.key r.record_id s.heads }
      else record s { records = kept r s.records })
  unfolding publish
  publish_parts = rw (head-kept r.key) refl

  publish-IsConsistent : IsConsistent catalog (publish r s)
  publish-IsConsistent =
      elim (Bool-cases (none_or (head_of r.key s.heads s.records) (is_newer r))) [
        | inl e ↦
            rw (publish_parts, e)
              (
                c.0,
                kept_sound,
                λ key id h. elim (Bool-cases (r.key == key)) [
                  | inl hit ↦
                      let k : some r.record_id ≡ some id =
                        sym (get-put r.key key r.record_id s.heads ∙ rw hit refl) ∙ h in
                      let same : r.record_id ≡ id = ground arith in
                      subst (λ i. get i (kept r s.records) ≡ some (catalog i)) same
                        (kept_own ∙ ap some own)
                  | inr miss ↦
                      kept_old id (catalog id) (
                        c.2 key id (sym (get-put r.key key r.record_id s.heads ∙ rw miss refl) ∙ h))
                ],
              )
        | inr e ↦
            rw (publish_parts, e)
              (c.0, kept_sound, λ key id h. kept_old id (catalog id) (c.2 key id h))
      ]

  head_written :
      (key : Key)
      → head_of key (put r.key r.record_id s.heads) (kept r s.records)
        ≡ (if r.key == key then some r else head_of key s.heads s.records)
  head_written key = elim (Bool-cases (r.key == key)) [
    | inl hit ↦ rw (get-put r.key key r.record_id s.heads, hit, head_of) kept_own
    | inr miss ↦ rw (get-put r.key key r.record_id s.heads, miss, head_of) (head-kept key)
  ]

  -- The head after the publication, told by what the head was.
  head-publish :
      (key : Key)
      → head_of key (publish r s).heads (publish r s).records
        ≡ pick key r (head_of key s.heads s.records)
  head-publish key =
      let same : (r.key == key) ≡ true → r.key ≡ key = (pair_beq_iff r.key key).0 in
      elim (Bool-cases (none_or (head_of r.key s.heads s.records) (is_newer r))) [
        | inl e ↦
            rw (publish_parts, e)
              (elim (Bool-cases (r.key == key)) [
                | inl hit ↦
                    (head_written key ∙ rw hit refl)
                    ∙ sym (
                        pick_new key r _ hit (
                          subst (λ k. none_or (head_of k s.heads s.records) (is_newer r) ≡ true)
                            (same hit) e))
                | inr miss ↦ (head_written key ∙ rw miss refl) ∙ sym (pick_other key r _ miss)
              ])
        | inr e ↦
            rw (publish_parts, e)
              (elim (Bool-cases (r.key == key)) [
                | inl hit ↦
                    head-kept key
                    ∙ sym (
                        pick_old key r _ (
                          subst (λ k. none_or (head_of k s.heads s.records) (is_newer r) ≡ false)
                            (same hit) e))
                | inr miss ↦ head-kept key ∙ sym (pick_other key r _ miss)
              ])
      ]

-- Publishing in any order agrees with the fold that keeps the newest record of the key.
current-publish_all :
    (catalog : ℕ → Stored) (key : Key) (rs : List Stored) (s : Store)
    → IsConsistent catalog s
    → All (λ r. r ≡ catalog r.record_id) rs
    → get_current key (publish_all rs s) ≡ newest_from key rs (get_current key s)
unfolding publish_all newest_from
current-publish_all catalog key [] s c own = refl
current-publish_all catalog key (r ∷ rs) s c (own, owns) =
    let c' = publish-IsConsistent catalog r s own c in
    current-publish_all catalog key rs (publish r s) c' owns
    ∙ ap (newest_from key rs) (
        current-head catalog r (publish r s) own c' key
        ∙ head-publish catalog r s own c key
        ∙ ap (pick key r) (sym (current-head catalog r s own c key)))

abbrev pub IsCurrent : Key → List Stored → Option Stored → Type 0
IsCurrent key rs none = any (λ r. r.key == key) rs ≡ false
IsCurrent key rs (some x) =
    (any (λ r. (r.key == key) && eqb r.record_id x.record_id) rs ≡ true)
    × (any (λ r. (r.key == key) && is_newer r x) rs ≡ false)

empty-IsConsistent : (catalog : ℕ → Stored) → IsConsistent catalog empty
unfolding get
empty-IsConsistent catalog =
    (refl, λ id r h. absurd (ground arith), λ key id h. absurd (ground arith))

-- After records were published from an empty store, in any order, where an identifier stands for
-- one record, the current record of a key is one of the published records of that key, and none of
-- them is newer (by the time of observation, then by identifier); without one, none was published
-- under the key.
pub publish_all-IsCurrent :
    (catalog : ℕ → Stored) (key : Key) (rs : List Stored)
    → All (λ r. r ≡ catalog r.record_id) rs
    → IsCurrent key rs (get_current key (publish_all rs empty))
unfolding get_current get
publish_all-IsCurrent catalog key rs own =
    let e : get_current key (publish_all rs empty) ≡ newest_from key rs none =
      current-publish_all catalog key rs empty (empty-IsConsistent catalog) own in
    elim (Option-cases (newest_from key rs none)) [
      | inl f ↦ rw (e ∙ f) ((newest_none key rs none f).1)
      | inr (x, f) ↦ rw (e ∙ f) (elim (newest_source key rs none x f) [
        | inl g ↦ absurd (ground arith)
        | inr g ↦ (g, (newest_lem key rs none x f).1)
      ])
    ]
