-- ===== src/Scheduler/Overdue.antt =====
-- `spread_overdue` of DomainSchedulerService: batches until one is not full, and why there is such
-- a batch.
use domains_manager.Base.{
  ℕ, zero, suc, ◌+◌, ◌≤◌, ◌<◌, ◌≡◌, Bool, false, ◌&&◌, Option, some, none, List, [], ◌∷◌, eqb, ltb,
  any, arith, refl, inl, inr, Bool-cases, if◌then◌else◌, length, All, eqb_refl,
}
use domains_manager.Base.Table.{select, update, count}
use domains_manager.Models.{Domain, Database, Task, is_scheduled}
use domains_manager.Scheduler.Spread.{at_bounds}
use domains_manager.Scheduler.Future.{All-sort_by, All-take}
use domains_manager.Scheduler.{
  spread_due, spread_row, spread_rows, spread_at, is_overdue, is_waiting_for, is_stuck, requeued,
  is_before,
}

-- The loop of `spread_overdue`, for a number of batches; the draws of each batch are its own.
unfoldable pub spread_batches :
    ℕ → (now interval size : ℕ) → (ℕ → ℕ → ℕ → ℕ) → ℕ → Database → Option (ℕ × Database)
spread_batches zero now interval size offset total db = none
spread_batches (suc n) now interval size offset total db =
    let (found, db1) = spread_due now interval size (offset n) db in
    let rest = spread_batches n now interval size offset (total + found) db1 in
    if ltb found size then some (total + found, db1) else rest

abbrev pub overdue : ℕ → Database → ℕ
overdue now db = count (is_overdue now db) db.domains

abbrev requeue : ℕ → ℕ → ℕ → List Task → List Task
requeue now at id =
    update (λ (t : Task). eqb t.domain_id id && (is_stuck now t && is_scheduled t.origin))
      (requeued now at)

-- A task that was queued again waits for later, and the tasks of other domains are as they were.
any_waiting_own :
    (now at id : ℕ) (ts : List Task)
    → now < at
    → any (is_waiting_for id now) (requeue now at id ts) ≡ false
unfolding update
any_waiting_own now at id [] h = refl
any_waiting_own now at id (t ∷ ts) h = ground (arith, any_waiting_own now at id ts h)

any_waiting_other :
    (now at id other : ℕ) (ts : List Task)
    → eqb other id ≡ false
    → any (is_waiting_for other now) (requeue now at id ts) ≡ any (is_waiting_for other now) ts
unfolding update
any_waiting_other now at id other [] h = refl
any_waiting_other now at id other (t ∷ ts) h =
    ground (arith, any_waiting_other now at id other ts h)

-- Rows that are replaced by one that does not satisfy the condition.
replaced_le :
    (p p' q : Domain → Bool) (y : Domain) (rows : List Domain)
    → ((z : Domain) → q z ≡ false → p' z ≡ p z)
    → p' y ≡ false
    → count p' (update q (λ z. y) rows) + count (λ z. q z && p z) rows ≡ count p rows
unfolding count update
replaced_le p p' q y [] same off = refl
replaced_le p p' q y (z ∷ rows) same off =
    ground (arith, same z, replaced_le p p' q y rows same off)

-- Spreading one domain takes its overdue rows away, and makes no row overdue.
row_overdue :
    (now at : ℕ) (d : Domain) (db : Database)
    → now < at
    → overdue now (spread_row now at d db)
        + count (λ z. eqb z.id d.id && is_overdue now db z) db.domains
      ≡ overdue now db
unfolding spread_row
row_overdue now at d db later =
    let own = any_waiting_own now at d.id db.tasks later in
    replaced_le (is_overdue now db) (is_overdue now (spread_row now at d db)) (λ z. eqb z.id d.id) _
      db.domains
      (λ z e. let other = any_waiting_other now at d.id z.id db.tasks e in ground (arith, other))
      (ground (arith, own))

rows_overdue :
    (now : ℕ) (at : ℕ → ℕ) (rows : List Domain) (db : Database)
    → ((id : ℕ) → now < at id)
    → overdue now (spread_rows now at rows db) ≤ overdue now db
unfolding spread_rows
rows_overdue now at [] db later = omega arith
rows_overdue now at (d ∷ rows) db later = omega (
  arith,
  row_overdue now (at d.id) d db (later d.id),
  rows_overdue now at rows (spread_row now (at d.id) d db) later,
)

select_found :
    (p : Domain → Bool) (es ds : List Domain)
    → ((r : Domain) → count (λ z. eqb z.id r.id && p z) es ≤ count (λ z. eqb z.id r.id && p z) ds)
    → All (λ r. 1 ≤ count (λ z. eqb z.id r.id && p z) ds) (select p es)
unfolding select count
select_found p [] ds h = tt
select_found p (e ∷ es) ds h = elim (Bool-cases (p e)) [
  | inl f ↦
      rw (f, select)
        (ground (arith, h e, eqb_refl e.id), select_found p es ds (λ r. ground (arith, h r)))
  | inr f ↦ rw (f, select) (select_found p es ds (λ r. ground (arith, h r)))
]

-- A batch that is not empty leaves fewer domains overdue.
batch_overdue :
    (now : ℕ) (at : ℕ → ℕ) (rows : List Domain) (db : Database)
    → ((id : ℕ) → now < at id)
    → All (λ r. 1 ≤ count (λ z. eqb z.id r.id && is_overdue now db z) db.domains) rows
    → 1 ≤ length rows
    → overdue now (spread_rows now at rows db) < overdue now db
unfolding spread_rows
batch_overdue now at [] db later all one = absurd (omega (arith, one))
batch_overdue now at (d ∷ rows) db later (a, all) one = omega (
  arith,
  a,
  row_overdue now (at d.id) d db (later d.id),
  rows_overdue now at rows (spread_row now (at d.id) d db) later,
)

overdue-spread_due :
    (now interval size : ℕ) (offset : ℕ → ℕ → ℕ) (db : Database)
    → 1 ≤ size
    → ltb (spread_due now interval size offset db).0 size ≡ false
    → overdue now (spread_due now interval size offset db).1 < overdue now db
unfolding spread_due
overdue-spread_due now interval size offset db positive full =
    batch_overdue now (λ id. spread_at now interval (offset id)) _ db
      (λ id. (at_bounds now interval (offset id)).0)
      (All-take _ size _ (
        All-sort_by _ is_before _
          (select_found (is_overdue now db) db.domains db.domains (λ r. omega arith))))
      (ground arith)

-- The spreading of overdue checks ends: where a batch has room for a domain, one batch more than
-- there are overdue domains is enough for the loop to return, whatever offsets are drawn.
pub spread_batches_end :
    (now interval size : ℕ) (offset : ℕ → ℕ → ℕ → ℕ) (n total : ℕ) (db : Database)
    → 1 ≤ size
    → overdue now db < n
    → (r : ℕ × Database) × (spread_batches n now interval size offset total db ≡ some r)
unfolding spread_batches
spread_batches_end now interval size offset zero total db positive few = absurd (omega (arith, few))
spread_batches_end now interval size offset (suc n) total db positive few =
    let (found, db1) = spread_due now interval size (offset n) db in
    elim (Bool-cases (ltb (spread_due now interval size (offset n) db).0 size)) [
      | inl e ↦ ((total + found, db1), rw (e, spread_batches) refl)
      | inr e ↦
          let fewer = overdue-spread_due now interval size (offset n) db positive e in
          let (r, f) =
            spread_batches_end now interval size offset n (total + found) db1 positive
              (omega (arith, fewer, few)) in
          (r, rw (e, spread_batches) f)
    ]
