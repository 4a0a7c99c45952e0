-- ===== src/Tasks/Enqueue.antt =====
-- SqlAlchemyTaskRepository.add and what it calls: one active task for a domain, and a replay of a
-- request under its idempotency key.
use domains_manager.Base.{
  ℕ, String, Bool, ◌&&◌, ◌||◌, not, Option, none, some, ◌∷◌, eqb, str_eq, min, if◌then◌else◌,
  is_none,
}
use domains_manager.Base.Result.{Result, ok, err, idempotency_conflict, integrity_error}
use domains_manager.Base.Table.{find, update}
use domains_manager.Models.{Task, Idempotency, Database, is_queued, is_active, is_scheduled}
use domains_manager.Tasks.Leases.{domain_of}

abbrev pub is_request : ℕ → ℕ → String → Idempotency → Bool
is_request user resource key r =
    eqb r.user_id user && (eqb r.resource_id resource && str_eq r.key key)

unfoldable pub get_idempotent : ℕ → ℕ → String → Database → Option Idempotency
get_idempotent user resource key db = find (is_request user resource key) db.idempotency

abbrev pub is_active_for : ℕ → Task → Bool
is_active_for domain t = eqb t.domain_id domain && is_active t.status

-- `_active_for_domain`
unfoldable pub active_for_domain : ℕ → Database → Option Task
active_for_domain domain db = find (is_active_for domain) db.tasks

-- `get`: the task of that user, joined with its domain.
unfoldable pub get_task : ℕ → ℕ → Database → Option Task
get_task user id db = elim (find (λ t. eqb t.id id && eqb t.user_id user) db.tasks) [
  | none ↦ none
  | some t ↦ elim (domain_of db t) [ none ↦ none | some d ↦ some t ]
]

-- Only untouched scheduled work is expedited.
expedite : Task → Task → Task
expedite existing incoming =
    if eqb existing.attempt_count 0 && is_none existing.error_code
    then record existing { available_at = min existing.available_at incoming.available_at }
    else existing

take_over : Task → Task → Task
unfolding expedite
take_over existing incoming =
    if not (is_scheduled incoming.origin) && is_scheduled existing.origin
    then expedite (record existing { origin = incoming.origin }) incoming
    else existing

-- `_merge_queued_request`
unfoldable pub merge_queued_request : Task → Task → Task
unfolding take_over
merge_queued_request existing incoming =
    if is_queued existing.status
    then record (take_over
        (record existing { force_refresh = existing.force_refresh || incoming.force_refresh })
        incoming) { updated_at = incoming.updated_at }
    else existing

-- `_add_idempotency`, with the identifier that `uuid4` returned.
unfoldable pub add_idempotency : ℕ → Task → ℕ → String → String → ℕ → Database → Result Database
add_idempotency fresh task task_id key fingerprint expires_at db =
    elim (get_idempotent task.user_id task.domain_id key db) [
      | none ↦ ok (record db {
        idempotency =
            record {
              id = fresh;
              user_id = task.user_id;
              resource_id = task.domain_id;
              key = key;
              fingerprint = fingerprint;
              task_id = task_id;
              created_at = task.created_at;
              expires_at = expires_at;
            }
            ∷ db.idempotency;
      })
      | some r ↦ if str_eq r.fingerprint fingerprint then ok db else err idempotency_conflict
    ]

-- The INSERT of a task fails on the unique index over the active tasks of a domain.
-- The columns of a new row: those that are not set are NULL.
abbrev pub new_row : Task → Task
new_row task = record task {
  lease_token = none;
  lease_owner = none;
  lease_until = none;
  started_at = none;
  completed_at = none;
  check_id = none;
  error_code = none;
  error_message = none;
}

unfoldable pub insert_task : Task → Database → Result Database
insert_task task db =
    if is_active task.status
    then elim (active_for_domain task.domain_id db) [
      | none ↦ ok (record db { tasks = new_row task ∷ db.tasks })
      | some t ↦ err integrity_error
    ]
    else ok (record db { tasks = new_row task ∷ db.tasks })

-- The request joins the active task of its domain.
unfoldable pub merge_into :
    ℕ → Task → Task → String → String → ℕ → Database → Result (Task × Database)
merge_into fresh existing task key fingerprint expires_at db =
    let merged = merge_queued_request existing task in
    elim (add_idempotency fresh task existing.id key fingerprint expires_at (record db {
      tasks = update (is_active_for task.domain_id) (λ t. merge_queued_request t task) db.tasks;
    })) [ ok db' ↦ ok (merged, db') | err e ↦ err e ]

-- The INSERT, and the merge after a lost race: between the SELECT and the INSERT another writer may
-- have queued a task, so this part stands alone.
unfoldable pub insert_or_merge :
    ℕ → Task → String → String → ℕ → Database → Result (Task × Database)
unfolding merge_into
insert_or_merge fresh task key fingerprint expires_at db = elim (insert_task task db) [
  | ok db' ↦ elim (add_idempotency fresh task task.id key fingerprint expires_at db') [
    | ok db'' ↦ ok (task, db'')
    | err e ↦ err e
  ]
  | err e ↦ elim (active_for_domain task.domain_id db) [
    | none ↦ err e
    | some existing ↦ merge_into fresh existing task key fingerprint expires_at db
  ]
]

-- The part of `add` behind the replay.
unfoldable pub place : ℕ → Task → String → String → ℕ → Database → Result (Task × Database)
unfolding merge_into
place fresh task key fingerprint expires_at db = elim (active_for_domain task.domain_id db) [
  | some existing ↦ merge_into fresh existing task key fingerprint expires_at db
  | none ↦ insert_or_merge fresh task key fingerprint expires_at db
]

-- `add`. On an error the unit of work rolls back.
unfoldable pub add_task : ℕ → Task → String → String → ℕ → Database → Result (Task × Database)
add_task fresh task key fingerprint expires_at db =
    elim (get_idempotent task.user_id task.domain_id key db) [
      | none ↦ place fresh task key fingerprint expires_at db
      | some replay ↦
          if str_eq replay.fingerprint fingerprint
          then elim (get_task task.user_id replay.task_id db) [
            | some t ↦ ok (t, db)
            | none ↦ place fresh task key fingerprint expires_at db
          ]
          else err idempotency_conflict
    ]
