-- ===== src/Scheduler/Spread.antt =====
-- Where a restart puts overdue checks, and that it makes no task active.
use domains_manager.Base.{
  ℕ, zero, suc, ◌+◌, ◌≤◌, ◌<◌, ◌≡◌, refl, ap, ◌∙◌, ◌⊎◌, Bool, true, some, min, max, List, [], ◌∷◌,
  arith, length, take, All, Mem, mem-cons_self, mem-cons_of_mem, eqb, eqb_refl, inl, inr,
  Bool-cases,
}
use domains_manager.Base.Table.{count, count-update, find, select, update, find-update, find_sound}
use domains_manager.Models.{Domain, Database}
use domains_manager.Tasks.Enqueue.{is_active_for}
use domains_manager.Tasks.Schedule.{with_next}
use domains_manager.Scheduler.Future.{
  has_id, IsReserved, IsNext, IsPresent, All-map, All-take, All-sort_by, All-select, select_holds,
  find_self,
}
use domains_manager.Scheduler.{
  requeued, spread_at, spread_row, spread_rows, spread_due, is_before, is_overdue, insert_by,
  sort_by,
}

pub at_bounds :
    (now interval : ℕ) (offset : ℕ → ℕ)
    → (now < spread_at now interval offset) × (spread_at now interval offset ≤ now + max 1 interval)
unfolding spread_at
at_bounds now interval offset = (grind arith, grind arith)

row_tasks :
    (now at d : ℕ) (r : Domain) (db : Database)
    → count (is_active_for d) (spread_row now at r db).tasks ≡ count (is_active_for d) db.tasks
unfolding spread_row
row_tasks now at d r db =
    count-update (is_active_for d) _ (requeued now at) db.tasks (λ t e. ground arith)

rows_tasks :
    (now d : ℕ) (at : ℕ → ℕ) (rs : List Domain) (db : Database)
    → count (is_active_for d) (spread_rows now at rs db).tasks ≡ count (is_active_for d) db.tasks
unfolding spread_rows
rows_tasks now d at [] db = omega arith
rows_tasks now d at (r ∷ rs) db =
    omega (
      arith,
      rows_tasks now d at rs (spread_row now (at r.id) r db),
      row_tasks now (at r.id) d r db,
    )

-- The overdue domains that one call of `spread_due` handles.
abbrev pub batch : ℕ → ℕ → Database → List Domain
batch now limit db = take limit (sort_by is_before (select (is_overdue now db) db.domains))

length-take : {A : Type 0} (n : ℕ) (xs : List A) → length (take n xs) ≡ min n (length xs)
length-take zero xs = grind arith
length-take (suc n) [] = grind arith
length-take (suc n) (x ∷ xs) = let ih = length-take n xs in grind arith

length-insert_by :
    (b : Domain → Domain → Bool) (d : Domain) (ds : List Domain)
    → length (insert_by b d ds) ≡ 1 + length ds
unfolding insert_by
length-insert_by b d [] = refl
length-insert_by b d (e ∷ es) = ground (arith, length-insert_by b d es)

length-sort_by : (b : Domain → Domain → Bool) (ds : List Domain) → length (sort_by b ds) ≡ length ds
unfolding sort_by
length-sort_by b [] = refl
length-sort_by b (d ∷ ds) = omega (arith, length-insert_by b d (sort_by b ds), length-sort_by b ds)

length-select : (p : Domain → Bool) (ds : List Domain) → length (select p ds) ≡ count p ds
unfolding select count
length-select p [] = refl
length-select p (d ∷ ds) = ground (arith, length-select p ds)

batch_overdue :
    (now limit : ℕ) (db : Database) → All (λ d. is_overdue now db d ≡ true) (batch now limit db)
batch_overdue now limit db =
    All-take _ limit _ (All-sort_by _ is_before _ (select_holds (is_overdue now db) db.domains))

batch-IsPresent : (now limit : ℕ) (db : Database) → All (IsPresent db) (batch now limit db)
batch-IsPresent now limit db =
    All-take _ limit _ (
      All-sort_by _ is_before _
        (All-select _ (is_overdue now db) db.domains (find_self db.domains)))

-- Writing one domain moves its check, and keeps the rows of the others.
module _ (now w at : ℕ) (d : Domain) (db : Database) (later : now < at) (soon : at ≤ now + w) where
  row_found :
      (i : ℕ) {y : Domain}
      → find (has_id i) db.domains ≡ some y
      → (z : Domain) × (find (has_id i) (spread_row now at d db).domains ≡ some z)
        × ((z ≡ y) ⊎ IsNext now w z)
        × (eqb i d.id ≡ true → IsNext now w z)
  unfolding spread_row
  row_found i {y} e =
      let d' : Domain = record (with_next d at) { updated_at = now; version = d.version + 1 } in
      let k = find-update (has_id i) (has_id d.id) (λ x. d') db.domains (λ r q. ground arith) in
      let s = find_sound (has_id i) db.domains e in
      elim (Bool-cases (has_id d.id y)) [
        | inl hit ↦
            (d', k ∙ rw (e, hit) refl, inr (at, refl, later, soon), λ q. (at, refl, later, soon))
        | inr miss ↦ (y, k ∙ rw (e, miss) refl, inl refl, λ q. absurd (ground arith))
      ]

-- What an update leaves: rows that were there, and what it wrote.
update_rows :
    (q : Domain → Bool) (d' : Domain) (ds : List Domain) (P : Domain → Type 0)
    → P d'
    → All P ds
    → All P (update q (λ z. d') ds)
unfolding update
update_rows q d' [] P h hs = tt
update_rows q d' (z ∷ ds) P h (k, ks) = elim (Bool-cases (q z)) [
  | inl e ↦ rw e (h, update_rows q d' ds P h ks)
  | inr e ↦ rw e (k, update_rows q d' ds P h ks)
]

module _ (now w : ℕ) (at : ℕ → ℕ) (later : (id : ℕ) → now < at id)
    (soon : (id : ℕ) → at id ≤ now + w) where
  -- The rows of `first` and those that were given a next check.
  abbrev IsKeptOrNext : List Domain → Domain → Type 0
  IsKeptOrNext first z = Mem z first ⊎ IsNext now w z

  rows-IsKeptOrNext :
      (first rs : List Domain) (db : Database)
      → All (IsKeptOrNext first) db.domains
      → All (IsKeptOrNext first) (spread_rows now at rs db).domains
  unfolding spread_rows spread_row
  rows-IsKeptOrNext first [] db h = h
  rows-IsKeptOrNext first (r ∷ rs) db h =
      rows-IsKeptOrNext first rs (spread_row now (at r.id) r db) (
        update_rows (has_id r.id) _ db.domains (IsKeptOrNext first)
          (inr (at r.id, refl, later r.id, soon r.id)) h)

  rows-IsReserved :
      (rs : List Domain) (db : Database)
      → All (IsPresent db) rs
      → All (IsReserved now w (spread_rows now at rs db)) rs
        × ((r : Domain) → IsReserved now w db r → IsReserved now w (spread_rows now at rs db) r)
  unfolding spread_rows
  rows-IsReserved [] db here = (tt, λ r k. k)
  rows-IsReserved (d ∷ ds) db ((y, e), there) =
      let db1 = spread_row now (at d.id) d db in
      let (z, f, same, own) = row_found now w (at d.id) d db (later d.id) (soon d.id) d.id e in
      let (n, q, u, v) = own (eqb_refl d.id) in
      let (all, keeps) = rows-IsReserved ds db1 (
        All-map (IsPresent db) (IsPresent db1) ds
          (λ r (y', e').
            let (z', f', s', o') =
              row_found now w (at d.id) d db (later d.id) (soon d.id) r.id e' in
            (z', f'))
          there) in
      (
        (keeps d (z, n, f, q, u, v), all),
        λ r (y', n', e', k', a', b').
            let (z', f', s', o') =
              row_found now w (at d.id) d db (later d.id) (soon d.id) r.id e' in
            keeps r (elim s' [
              | inl s ↦ (z', n', f', rw s k', a', b')
              | inr (m, q', u', v') ↦ (z', m, f', q', u', v')
            ]),
      )

rows_kept :
    (first ds : List Domain) (P : Domain → Type 0)
    → ((z : Domain) → Mem z ds → Mem z first)
    → All (λ z. Mem z first ⊎ P z) ds
rows_kept first [] P h = tt
rows_kept first (d ∷ ds) P h =
    (inl (h d mem-cons_self), rows_kept first ds P (λ z m. h z (mem-cons_of_mem d m)))

-- One call of `spread_due` handles as many domains as are overdue, or the limit if that is less, and
-- counts them: the first in the order of their checks and identifiers. Whatever offsets are drawn, the
-- row of each of them has its next check after the present by at most one interval (or one
-- microsecond, for an interval that is shorter); every row of the table is one that was there or has
-- such a next check; and every domain has as many queued and running tasks as it had.
pub spread_due_bounds :
    (now interval limit : ℕ) (offset : ℕ → ℕ → ℕ) (db : Database)
    → let r = spread_due now interval limit offset db in
      (r.0 ≡ min limit (count (is_overdue now db) db.domains))
      × (length (batch now limit db) ≡ r.0)
      × All (λ d. is_overdue now db d ≡ true) (batch now limit db)
      × All (IsReserved now (max 1 interval) r.1) (batch now limit db)
      × All (λ z. Mem z db.domains ⊎ IsNext now (max 1 interval) z) r.1.domains
      × ((d : ℕ) → count (is_active_for d) r.1.tasks ≡ count (is_active_for d) db.tasks)
unfolding spread_due
spread_due_bounds now interval limit offset db =
    let at = λ (id : ℕ). spread_at now interval (offset id) in
    let later = λ (id : ℕ). (at_bounds now interval (offset id)).0 in
    let soon = λ (id : ℕ). (at_bounds now interval (offset id)).1 in
    let rows = batch now limit db in
    let size = length-take limit (sort_by is_before (select (is_overdue now db) db.domains)) in
    let sorted = length-sort_by is_before (select (is_overdue now db) db.domains) in
    let selected = length-select (is_overdue now db) db.domains in
    (
      size ∙ ap (min limit) (sorted ∙ selected),
      refl,
      batch_overdue now limit db,
      (rows-IsReserved now (max 1 interval) at later soon rows db (batch-IsPresent now limit db)).0,
      rows-IsKeptOrNext now (max 1 interval) at later soon db.domains rows db
          (rows_kept db.domains db.domains (IsNext now (max 1 interval)) (λ z m. m)),
      λ d. rows_tasks now d at rows db,
    )
