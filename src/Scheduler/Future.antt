-- ===== src/Scheduler/Future.antt =====
-- Lemmas on the rows that `claim_due` selects and writes.
use domains_manager.Base.{
  ℕ, zero, suc, ◌+◌, ◌≤◌, ◌<◌, ◌≡◌, ◌⊎◌, refl, ◌∙◌, Bool, true, some, List, [], ◌∷◌, take, All, eqb,
  or_else, arith, inl, inr, Bool-cases,
}
use domains_manager.Base.Result.{ok, bind_ok}
use domains_manager.Base.Table.{find, select, find-update, find_sound}
use domains_manager.Models.{Domain, Database}
use domains_manager.Tasks.Schedule.{advance, with_next}
use domains_manager.Tasks.Schedule.Grid.{advance_grid}
use domains_manager.Tasks.Complete.{write_domain}
use domains_manager.Scheduler.{is_due, is_before, insert_by, sort_by, due_domains, claim_row}

abbrev pub has_id : ℕ → Domain → Bool
has_id id d = eqb d.id id

-- The domain of an identifier is checked next after `now`, within the interval.
abbrev pub IsReserved : ℕ → ℕ → Database → Domain → Type 0
IsReserved now interval db r =
    (d : Domain) × (n : ℕ) × (find (has_id r.id) db.domains ≡ some d)
    × (d.next_check_at ≡ some n)
    × (now < n)
    × (n ≤ now + interval)

pub All-map :
    (P Q : Domain → Type 0) (ds : List Domain) → ((d : Domain) → P d → Q d) → All P ds → All Q ds
All-map P Q [] f h = tt
All-map P Q (d ∷ ds) f (h, hs) = (f d h, All-map P Q ds f hs)

module _ (P : Domain → Type 0) where
  pub All-select : (p : Domain → Bool) (ds : List Domain) → All P ds → All P (select p ds)
  unfolding select
  All-select p [] h = tt
  All-select p (d ∷ ds) (h, hs) = elim (Bool-cases (p d)) [
    | inl e ↦ rw (e, select) (h, All-select p ds hs)
    | inr e ↦ rw (e, select) (All-select p ds hs)
  ]

  All-insert_by :
      (b : Domain → Domain → Bool) (d : Domain) (ds : List Domain)
      → P d
      → All P ds
      → All P (insert_by b d ds)
  unfolding insert_by
  All-insert_by b d [] h hs = (h, tt)
  All-insert_by b d (e ∷ es) h (k, ks) = elim (Bool-cases (b d e)) [
    | inl x ↦ rw (x, insert_by) (h, (k, ks))
    | inr x ↦ rw (x, insert_by) (k, All-insert_by b d es h ks)
  ]

  pub All-sort_by :
      (b : Domain → Domain → Bool) (ds : List Domain) → All P ds → All P (sort_by b ds)
  unfolding sort_by
  All-sort_by b [] h = tt
  All-sort_by b (d ∷ ds) (h, hs) = All-insert_by b d (sort_by b ds) h (All-sort_by b ds hs)

  pub All-take : (n : ℕ) (ds : List Domain) → All P ds → All P (take n ds)
  All-take zero ds h = tt
  All-take (suc n) [] h = tt
  All-take (suc n) (d ∷ ds) (h, hs) = (h, All-take n ds hs)

pub select_holds : (p : Domain → Bool) (ds : List Domain) → All (λ d. p d ≡ true) (select p ds)
unfolding select
select_holds p [] = tt
select_holds p (d ∷ ds) = elim (Bool-cases (p d)) [
  | inl e ↦ rw (e, select) (e, select_holds p ds)
  | inr e ↦ rw (e, select) (select_holds p ds)
]

-- The selected rows satisfy the condition of the SELECT.
pub due_domains_due :
    (now limit : ℕ) (db : Database) → All (λ d. is_due now db d ≡ true) (due_domains now limit db)
unfolding due_domains
due_domains_due now limit db =
    All-take _ limit _ (All-sort_by _ is_before _ (select_holds (is_due now db) db.domains))

-- The domain of an identifier is there.
abbrev pub IsPresent : Database → Domain → Type 0
IsPresent db r = (y : Domain) × (find (has_id r.id) db.domains ≡ some y)

pub find_self : (ds : List Domain) → All (λ r. (y : Domain) × (find (has_id r.id) ds ≡ some y)) ds
unfolding find
find_self [] = tt
find_self (d ∷ ds) = (
  (d, ground (arith)),
  All-map _ _ ds
      (λ r (y, e). elim (Bool-cases (has_id r.id d)) [
        | inl k ↦ (d, rw k refl)
        | inr k ↦ (y, rw k e)
      ])
      (find_self ds),
)

pub due_domains-IsPresent :
    (now limit : ℕ) (db : Database) → All (IsPresent db) (due_domains now limit db)
unfolding due_domains
due_domains-IsPresent now limit db =
    All-take _ limit _
      (All-sort_by _ is_before _ (All-select _ (is_due now db) db.domains (find_self db.domains)))

abbrev pub IsNext : ℕ → ℕ → Domain → Type 0
IsNext now interval z = (n : ℕ) × (z.next_check_at ≡ some n) × (now < n) × (n ≤ now + interval)

-- A turn of the loop reserves its own domain, and keeps what is there and what is reserved.
module _ (now interval : ℕ) (d : Domain) (db db' : Database)
    (h : claim_row now interval d db ≡ ok db') (due : or_else d.next_check_at 0 ≤ now) where
  row_written :
      (n : ℕ) × (now < n)
      × (n ≤ now + interval)
      × (db'
          ≡ write_domain (record (with_next d n) { updated_at = now; version = d.version + 1 }) db)
  unfolding claim_row
  row_written =
      let (n, e, k) = bind_ok (advance (or_else d.next_check_at 0) interval now) _ h in
      let (a, b, c) = advance_grid (or_else d.next_check_at 0) interval now n due e in
      (n, a, b, ground arith)

  pub row_found :
      (i : ℕ) {y : Domain}
      → find (has_id i) db.domains ≡ some y
      → (z : Domain) × (find (has_id i) db'.domains ≡ some z)
        × ((z ≡ y) ⊎ IsNext now interval z)
        × (eqb i d.id ≡ true → IsNext now interval z)
  row_found i {y} e =
      let (n, a, b, w) = row_written in
      let d' : Domain = record (with_next d n) { updated_at = now; version = d.version + 1 } in
      let k = find-update (has_id i) (has_id d.id) (λ x. d') db.domains (λ r q. ground arith) in
      let s = find_sound (has_id i) db.domains e in
      elim (Bool-cases (has_id d.id y)) [
        | inl hit ↦ (d', rw w (k ∙ rw (e, hit) refl), inr (n, refl, a, b), λ q. (n, refl, a, b))
        | inr miss ↦ (y, rw w (k ∙ rw (e, miss) refl), inl refl, λ q. absurd (ground arith))
      ]
