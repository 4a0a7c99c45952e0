-- ===== src/Tasks/Claims.antt =====
-- Which task a claim takes, and that it takes one whenever one is waiting.
use domains_manager.Base.{
  Mem, ℕ, ◌≤◌, ◌≡◌, refl, String, Bool, true, false, ◌&&◌, none, some, List, [], ◌∷◌, eqb, inl, inr,
  arith, Bool-cases, Option-cases, any, is_some, ltb, eqb_refl,
}
use domains_manager.Base.Table.{find, find_sound, find-Mem}
use domains_manager.Models.{Task, Database}
use domains_manager.Tasks.Leases.{
  is_claimable, claimed, claim_candidate, claim_write, claim, oldest, has_domain,
}

none_older_mono :
    (p : Task → Bool) (ts : List Task) (a b : ℕ)
    → a ≤ b
    → any (λ u. p u && ltb u.created_at b) ts ≡ false
    → any (λ u. p u && ltb u.created_at a) ts ≡ false
none_older_mono p [] a b h e = refl
none_older_mono p (u ∷ ts) a b h e = ground (arith, none_older_mono p ts a b)

oldest-none : (p : Task → Bool) (ts : List Task) → oldest p ts ≡ none → any p ts ≡ false
unfolding oldest
oldest-none p [] e = refl
oldest-none p (u ∷ ts) e = ground (arith, oldest-none p ts)

none_of_any :
    (p q : Task → Bool) (ts : List Task) → any p ts ≡ false → any (λ u. p u && q u) ts ≡ false
none_of_any p q [] e = refl
none_of_any p q (u ∷ ts) e = ground (arith, none_of_any p q ts)

-- What the scan returns satisfies the condition, and no row with the condition is older.
oldest_lem :
    (p : Task → Bool) (ts : List Task) {t : Task}
    → oldest p ts ≡ some t
    → (p t ≡ true)
      × (any (λ u. p u && ltb u.created_at t.created_at) ts ≡ false)
      × (any p ts ≡ true)
unfolding oldest
oldest_lem p [] e = absurd (ground arith)
oldest_lem p (u ∷ ts) {t} e = elim (Option-cases (oldest p ts)) [
  | inl f ↦ (
    ground arith,
    ground (
      arith,
      none_of_any p (λ v. ltb v.created_at u.created_at) ts (oldest-none p ts f),
      none_of_any p (λ v. ltb v.created_at t.created_at) ts (oldest-none p ts f),
    ),
    ground arith,
  )
  | inr (x, f) ↦
      let ih = oldest_lem p ts f in
      (ground arith, ground (arith, none_older_mono p ts u.created_at x.created_at), ground arith)
]

-- The row that the scan returned is found again under its identifier.
oldest-find :
    (p : Task → Bool) (ts : List Task) {t : Task}
    → oldest p ts ≡ some t
    → (x : Task) × (find (λ u. eqb u.id t.id && p u) ts ≡ some x)
unfolding oldest find
oldest-find p [] e = absurd (ground arith)
oldest-find p (u ∷ ts) {t} e = elim (Bool-cases (eqb u.id t.id && p u)) [
  | inl here ↦ (u, ground arith)
  | inr other ↦
      let (x, f) = oldest-find p ts {t = t} (elim (Option-cases (oldest p ts)) [
        | inl f ↦ absurd (ground (arith, eqb_refl t.id))
        | inr (y, f) ↦ ground (arith, eqb_refl t.id)
      ]) in
      (x, ground arith)
]

find_weaken {ℓ} :
    {R : Type ℓ} (p q : R → Bool) (rs : List R) {x : R}
    → ((r : R) → q r ≡ true → p r ≡ true)
    → find q rs ≡ some x
    → (y : R) × (find p rs ≡ some y)
unfolding find
find_weaken p q [] h e = absurd (ground arith)
find_weaken p q (r ∷ rs) {x} h e = elim (Bool-cases (p r)) [
  | inl here ↦ (r, ground arith)
  | inr other ↦ let (y, f) = find_weaken p q rs {x = x} h (ground (arith, h r)) in (y, ground arith)
]

abbrev waiting : ℕ → Database → Task → Bool
waiting now db t = is_claimable now t && has_domain db t

claim_written :
    (token : ℕ) (worker : String) (now until : ℕ) (db : Database) {c : Task}
    → claim_candidate now db ≡ some c
    → (x : Task) × ((claim token worker now until db).0 ≡ some (claimed token worker now until x))
      × (eqb x.id c.id ≡ true)
      × Mem x db.tasks
      × (is_claimable now x ≡ true)
unfolding claim claim_write claim_candidate
claim_written token worker now until db {c} e =
    let (x, f) = oldest-find (waiting now db) db.tasks e in
    let (y, g) =
      find_weaken (λ (t : Task). eqb t.id c.id && is_claimable now t)
        (λ (t : Task). eqb t.id c.id && waiting now db t) db.tasks {x = x} (λ r h. ground arith)
        f in
    (
      y,
      rw (e, g, claim, claim_write),
      ground (arith, find_sound (λ (t : Task). eqb t.id c.id && is_claimable now t) db.tasks g),
      find-Mem (λ (t : Task). eqb t.id c.id && is_claimable now t) db.tasks g,
      ground (arith, find_sound (λ (t : Task). eqb t.id c.id && is_claimable now t) db.tasks g),
    )

candidate_lem :
    (now : ℕ) (db : Database) {c : Task}
    → claim_candidate now db ≡ some c
    → (waiting now db c ≡ true)
      × (any (λ u. waiting now db u && ltb u.created_at c.created_at) db.tasks ≡ false)
      × (any (waiting now db) db.tasks ≡ true)
unfolding claim_candidate
candidate_lem now db e = oldest_lem (waiting now db) db.tasks e

-- A claim takes a task exactly when some task of an existing domain is claimable: queued and
-- available, or running under a lease that has ended.
pub claim_exact :
    (token : ℕ) (worker : String) (now until : ℕ) (db : Database)
    → is_some (claim token worker now until db).0
      ≡ any (λ t. is_claimable now t && has_domain db t) db.tasks
claim_exact token worker now until db = elim (Option-cases (claim_candidate now db)) [
  | inl e ↦
      unfold claim claim_candidate in rw (e, claim) (rw (oldest-none (waiting now db) db.tasks e))
  | inr (c, e) ↦
      let (x, f, _, _, _) = claim_written token worker now until db e in
      rw f (rw ((candidate_lem now db e).2))
]
