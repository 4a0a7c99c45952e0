-- ===== src/Tasks/Single/Adds.antt =====
-- Adding a task keeps the active tasks single.
use domains_manager.Base.{
  ℕ, ◌≤◌, ◌≡◌, ◌⊎◌, String, true, false, none, List, ◌∷◌, eqb, eqb_iff, inl, inr, arith, Bool-cases,
  Option-cases,
}
use domains_manager.Base.Result.{ok, err, integrity_error}
use domains_manager.Base.Table.{find, update, count, count_of_find-none}
use domains_manager.Models.{Task, Database, is_active}
use domains_manager.Tasks.Enqueue.{
  new_row, is_active_for, active_for_domain, merge_queued_request, add_idempotency, insert_task,
  insert_or_merge, merge_into, place, add_task,
}
use domains_manager.Tasks.Single.Defs.{IsSingle, update-IsSingle}

-- Joining an active task leaves its domain and status.
pub merge-keeps :
    (t u : Task)
    → ((merge_queued_request t u).domain_id ≡ t.domain_id)
      × ((merge_queued_request t u).status ≡ t.status)
unfolding merge_queued_request
merge-keeps t u = ground arith

merge-IsSingle :
    (task : Task) (ts : List Task)
    → ((d : ℕ) → count (is_active_for d) ts ≤ 1)
    → (d : ℕ)
    → count
        (is_active_for d)
        (update (is_active_for task.domain_id) (λ t. merge_queued_request t task) ts)
      ≤ 1
merge-IsSingle task ts =
    update-IsSingle (is_active_for task.domain_id) (λ t. merge_queued_request t task) ts
      (λ t e. (merge-keeps t task).0) (λ t e a. ground arith)

add_idempotency-tasks :
    (fresh : ℕ) (task : Task) (id : ℕ) (key print : String) (expires : ℕ) (db db' : Database)
    → add_idempotency fresh task id key print expires db ≡ ok db'
    → db'.tasks ≡ db.tasks
unfolding add_idempotency
add_idempotency-tasks fresh task id key print expires db db' h = ground arith

merge_into-tasks :
    (fresh : ℕ) (existing task : Task) (key print : String) (expires : ℕ) (db : Database) {t : Task}
    {db' : Database}
    → merge_into fresh existing task key print expires db ≡ ok (t, db')
    → db'.tasks ≡ update (is_active_for task.domain_id) (λ t. merge_queued_request t task) db.tasks
unfolding merge_into
merge_into-tasks fresh existing task key print expires db {t} {db'} h = ground (
  arith,
  add_idempotency-tasks fresh task existing.id key print expires
      (record db {
        tasks = update (is_active_for task.domain_id) (λ t. merge_queued_request t task) db.tasks;
      })
      db',
)

count-cons :
    (task : Task) (ts : List Task) (active : is_active task.status ≡ true) (d : ℕ)
    → find (is_active_for task.domain_id) ts ≡ none
    → count (is_active_for d) ts ≤ 1
    → count (is_active_for d) (task ∷ ts) ≤ 1
unfolding count
count-cons task ts active d e h = elim (Bool-cases (eqb task.domain_id d)) [
  | inl same ↦
      let k : task.domain_id ≡ d = (eqb_iff task.domain_id d).0 same in
      let z = count_of_find-none (is_active_for task.domain_id) ts e in rw (← k) (ground (arith, z))
  | inr other ↦ ground arith
]

with_task : Task → Database → Database
with_task task db = record db { tasks = new_row task ∷ db.tasks }

-- An insert goes through if the task is finished or its domain has no active one.
insert_task-cases :
    (task : Task) (db : Database)
    → ((insert_task task db ≡ ok (with_task task db))
        × ((is_active task.status ≡ false) ⊎ (find (is_active_for task.domain_id) db.tasks ≡ none)))
      ⊎ (insert_task task db ≡ err integrity_error)
unfolding insert_task with_task active_for_domain
insert_task-cases task db = elim (Bool-cases (is_active task.status)) [
  | inl a ↦ elim (Option-cases (find (is_active_for task.domain_id) db.tasks)) [
    | inl e ↦ inl (ground arith, inr e)
    | inr (u, e) ↦ inr (ground arith)
  ]
  | inr a ↦ inl (ground arith, inl a)
]

with_task-IsSingle :
    (task : Task) (db : Database)
    → (is_active task.status ≡ false) ⊎ (find (is_active_for task.domain_id) db.tasks ≡ none)
    → IsSingle db
    → IsSingle (with_task task db)
unfolding with_task count
with_task-IsSingle task db (inl a) h d = ground (arith, h d)
with_task-IsSingle task db (inr e) h d = elim (Bool-cases (is_active task.status)) [
  | inl a ↦ count-cons (new_row task) db.tasks a d e (h d)
  | inr a ↦ ground (arith, h d)
]

inserted-tasks :
    (fresh : ℕ) (task : Task) (key print : String) (expires : ℕ) (db : Database) {t : Task}
    {db' : Database}
    → insert_task task db ≡ ok (with_task task db)
    → insert_or_merge fresh task key print expires db ≡ ok (t, db')
    → db'.tasks ≡ (with_task task db).tasks
unfolding insert_or_merge
inserted-tasks fresh task key print expires db {t} {db'} i e =
    ground
      (arith, add_idempotency-tasks fresh task task.id key print expires (with_task task db) db')

insert_or_merge-IsSingle :
    (fresh : ℕ) (task : Task) (key print : String) (expires : ℕ) (db : Database) {t : Task}
    {db' : Database}
    → insert_or_merge fresh task key print expires db ≡ ok (t, db')
    → IsSingle db
    → IsSingle db'
unfolding insert_or_merge
insert_or_merge-IsSingle fresh task key print expires db {t} {db'} e h =
    elim (insert_task-cases task db) [
      | inl (i, free) ↦ λ d.
          rw (inserted-tasks fresh task key print expires db i e)
            (with_task-IsSingle task db free h d)
      | inr i ↦ elim (Option-cases (active_for_domain task.domain_id db)) [
        | inl f ↦ absurd (ground arith)
        | inr (u, f) ↦ λ d.
            rw
              (merge_into-tasks fresh u task key print expires db (rw (i, f, insert_or_merge) at e))
              (merge-IsSingle task db.tasks h d)
      ]
    ]

place-IsSingle :
    (fresh : ℕ) (task : Task) (key print : String) (expires : ℕ) (db : Database) {t : Task}
    {db' : Database}
    → place fresh task key print expires db ≡ ok (t, db')
    → IsSingle db
    → IsSingle db'
unfolding place
place-IsSingle fresh task key print expires db {t} {db'} e h =
    elim (Option-cases (active_for_domain task.domain_id db)) [
      | inl f ↦ insert_or_merge-IsSingle fresh task key print expires db (rw (f, place) at e) h
      | inr (u, f) ↦ λ d.
          rw (merge_into-tasks fresh u task key print expires db (rw (f, place) at e))
            (merge-IsSingle task db.tasks h d)
    ]

pub add_task-IsSingle :
    (fresh : ℕ) (task : Task) (key print : String) (expires : ℕ) (db : Database) {t : Task}
    {db' : Database}
    → add_task fresh task key print expires db ≡ ok (t, db')
    → IsSingle db
    → IsSingle db'
unfolding add_task
add_task-IsSingle fresh task key print expires db {t} {db'} e h d = ground (
  arith,
  h d,
  λ (q : place fresh task key print expires db ≡ ok (t, db')).
      place-IsSingle fresh task key print expires db q h d,
)
