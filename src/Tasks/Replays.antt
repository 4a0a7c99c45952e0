-- ===== src/Tasks/Replays.antt =====
-- Idempotency keys, and what joining an active task may change.
use domains_manager.Base.{
  ℕ, ◌≤◌, ◌≡◌, ◌≢◌, String, false, ◌&&◌, ◌||◌, none, some, eqb, inl, inr, arith, Option-cases,
  eq_iff, is_none, min,
}
use domains_manager.Base.Result.{ok, err, Result-cases, idempotency_conflict}
use domains_manager.Base.Table.{find, update}
use domains_manager.Models.{Task, Idempotency, Database, is_queued}
use domains_manager.Tasks.Enqueue.{
  is_active_for, active_for_domain, get_idempotent, get_task, add_idempotency, insert_task,
  merge_into, insert_or_merge, place, add_task, merge_queued_request,
}

-- What a first use of a key leaves behind.
add_idempotency_new :
    (fresh : ℕ) (task : Task) (id : ℕ) (key print : String) (expires : ℕ) (db db' : Database)
    → get_idempotent task.user_id task.domain_id key db ≡ none
    → add_idempotency fresh task id key print expires db ≡ ok db'
    → (r : Idempotency) × (get_idempotent task.user_id task.domain_id key db' ≡ some r)
      × (r.fingerprint ≡ print)
      × (r.task_id ≡ id)
unfolding add_idempotency get_idempotent find
add_idempotency_new fresh task id key print expires db db' e h = (
  record {
    id = fresh;
    user_id = task.user_id;
    resource_id = task.domain_id;
    key = key;
    fingerprint = print;
    task_id = id;
    created_at = task.created_at;
    expires_at = expires;
  },
  ground (arith, eq_iff key key),
  ground arith,
  ground arith,
)

-- A key that was used is refused for another request.
pub add_task_conflict :
    (fresh : ℕ) (task : Task) (key print : String) (expires : ℕ) (db : Database) (r : Idempotency)
    → get_idempotent task.user_id task.domain_id key db ≡ some r
    → r.fingerprint ≢ print
    → add_task fresh task key print expires db ≡ err idempotency_conflict
unfolding add_task
add_task_conflict fresh task key print expires db r e ne =
    rw (e, add_task) (ground (arith, eq_iff r.fingerprint print))

merge-id : (t u : Task) → (merge_queued_request t u).id ≡ t.id
unfolding merge_queued_request
merge-id t u = ground arith

merge_into_new :
    (fresh : ℕ) (existing task : Task) (key print : String) (expires : ℕ) (db : Database) {t : Task}
    {db' : Database}
    → get_idempotent task.user_id task.domain_id key db ≡ none
    → merge_into fresh existing task key print expires db ≡ ok (t, db')
    → (r : Idempotency) × (get_idempotent task.user_id task.domain_id key db' ≡ some r)
      × (r.fingerprint ≡ print)
      × (r.task_id ≡ t.id)
unfolding merge_into get_idempotent
merge_into_new fresh existing task key print expires db {t} {db'} e h =
    let db1 : Database = record db {
      tasks = update (is_active_for task.domain_id) (λ t. merge_queued_request t task) db.tasks;
    } in
    let joined = add_idempotency fresh task existing.id key print expires db1 in
    elim (Result-cases joined) [
      | inl (db2, f) ↦
          let (r, g, fp, i) =
            add_idempotency_new fresh task existing.id key print expires db1 db2 e f in
          (r, ground arith, fp, ground (arith, merge-id existing task))
      | inr (x, f) ↦ absurd (ground arith)
    ]

-- The request under `key` is on record for the task `id`.
abbrev Recorded : Task → String → String → ℕ → Database → Type 0
Recorded task key print id db =
    (r : Idempotency) × (get_idempotent task.user_id task.domain_id key db ≡ some r)
    × (r.fingerprint ≡ print)
    × (r.task_id ≡ id)

insert_new :
    (task : Task) (key : String) (db db' : Database)
    → insert_task task db ≡ ok db'
    → get_idempotent task.user_id task.domain_id key db ≡ none
    → get_idempotent task.user_id task.domain_id key db' ≡ none
unfolding insert_task get_idempotent
insert_new task key db db' h e = ground arith

insert_or_merge_new :
    (fresh : ℕ) (task : Task) (key print : String) (expires : ℕ) (db : Database) {t : Task}
    {db' : Database}
    → get_idempotent task.user_id task.domain_id key db ≡ none
    → insert_or_merge fresh task key print expires db ≡ ok (t, db')
    → Recorded task key print t.id db'
unfolding insert_or_merge
insert_or_merge_new fresh task key print expires db {t} {db'} e h =
    elim (Result-cases (insert_task task db)) [
      | inl (db1, f) ↦
          elim (Result-cases (add_idempotency fresh task task.id key print expires db1)) [
            | inl (db2, g) ↦
                let (r, a, b, c) =
                  add_idempotency_new fresh task task.id key print expires db1 db2
                    (insert_new task key db db1 f e) g in
                (r, ground arith, b, ground arith)
            | inr (x, g) ↦ absurd (ground arith)
          ]
      | inr (x, f) ↦ elim (Option-cases (active_for_domain task.domain_id db)) [
        | inl g ↦ absurd (ground arith)
        | inr (u, g) ↦
            merge_into_new fresh u task key print expires db e (rw (f, g, insert_or_merge) at h)
      ]
    ]

place_new :
    (fresh : ℕ) (task : Task) (key print : String) (expires : ℕ) (db : Database) {t : Task}
    {db' : Database}
    → get_idempotent task.user_id task.domain_id key db ≡ none
    → place fresh task key print expires db ≡ ok (t, db')
    → Recorded task key print t.id db'
unfolding place
place_new fresh task key print expires db {t} {db'} e h =
    elim (Option-cases (active_for_domain task.domain_id db)) [
      | inl g ↦ insert_or_merge_new fresh task key print expires db e (rw (g, place) at h)
      | inr (u, g) ↦ merge_into_new fresh u task key print expires db e (rw (g, place) at h)
    ]

-- A request under an idempotency key that was not in use is replayed: after it returned a task that
-- its user can read, a second request of the same user, domain, key and fingerprint returns what is
-- read under that task's identifier and changes nothing, whatever else the second request holds.
pub add_task_replay :
    (fresh fresh' : ℕ) (task task' : Task) (key print : String) (expires expires' : ℕ)
    (db : Database) (t u : Task) (db' : Database)
    → get_idempotent task.user_id task.domain_id key db ≡ none
    → add_task fresh task key print expires db ≡ ok (t, db')
    → task'.user_id ≡ task.user_id
    → task'.domain_id ≡ task.domain_id
    → get_task task.user_id t.id db' ≡ some u
    → add_task fresh' task' key print expires' db' ≡ ok (u, db')
unfolding add_task
add_task_replay fresh fresh' task task' key print expires expires' db t u db' e h su sd g =
    let (r, a, b, c) =
      place_new fresh task key print expires db {t = t} {db' = db'} e (rw (e, add_task) at h) in
    ground (arith, eq_iff r.fingerprint print)

-- Joining an active task never drops a forced refresh, and adds one only to a queued task; it never
-- makes the task available later, nor earlier than the new request; the task keeps its identity,
-- domain, status and attempts.
pub merge_monotone :
    (t u : Task)
    → let m = merge_queued_request t u in
      (m.force_refresh ≡ (t.force_refresh || (is_queued t.status && u.force_refresh)))
      × (m.available_at ≤ t.available_at)
      × (min t.available_at u.available_at ≤ m.available_at)
      × (m.id ≡ t.id)
      × (m.domain_id ≡ t.domain_id)
      × (m.status ≡ t.status)
      × (m.attempt_count ≡ t.attempt_count)
unfolding merge_queued_request
merge_monotone t u = (
  ground arith,
  ground arith,
  ground arith,
  ground arith,
  ground arith,
  ground arith,
  ground arith,
)

-- A task that was tried, or that carries an error, keeps the time at which it becomes available:
-- joining it does not shorten a retry delay or a cooldown.
pub merge_cooldown :
    (t u : Task)
    → (eqb t.attempt_count 0 && is_none t.error_code) ≡ false
    → (merge_queued_request t u).available_at ≡ t.available_at
unfolding merge_queued_request
merge_cooldown t u h = ground arith
