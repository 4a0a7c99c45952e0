-- ===== src/Scheduler.antt =====
-- DomainSchedulerService of domainsmanager_application/scheduler.py, with `claim_due` and `spread_due`
-- of domainsmanager_persistence/domains.py.
pub mod Future
pub mod Reserved
pub mod Spread
pub mod Overdue
use domains_manager.Base.{
  ℕ, ◌+◌, ◌-◌, ◌*◌, ◌/◌, min, String, Bool, true, false, ◌&&◌, ◌||◌, not, Option, none, some, List,
  [], ◌∷◌, length, take, any, eqb, ltb, leb, if◌then◌else◌, is_none, some_and, or_else,
}
use domains_manager.Base.Result.{Result, ok, err, ◌>>=◌}
use domains_manager.Base.Table.{select, update}
use domains_manager.Models.{
  Task, Domain, Database, queued, scheduled, is_queued, is_running, is_active, is_scheduled,
}
use domains_manager.Tasks.Schedule.{advance, with_next}
use domains_manager.Tasks.Enqueue.{is_active_for, add_task}
use domains_manager.Tasks.Complete.{write_domain}

-- ORDER BY next_check_at, id
abbrev pub is_before : Domain → Domain → Bool
is_before a b =
    let x = or_else a.next_check_at 0 in
    let y = or_else b.next_check_at 0 in ltb x y || (eqb x y && leb a.id b.id)

unfoldable pub insert_by {ℓ} : {A : Type ℓ} → (A → A → Bool) → A → List A → List A
insert_by before a [] = a ∷ []
insert_by before a (b ∷ bs) =
    let rest = insert_by before a bs in if before a b then a ∷ b ∷ bs else b ∷ rest

unfoldable pub sort_by {ℓ} : {A : Type ℓ} → (A → A → Bool) → List A → List A
sort_by before [] = []
sort_by before (a ∷ rest) = insert_by before a (sort_by before rest)

abbrev pub is_watched : Domain → Bool
is_watched d = d.monitor_enabled && is_none d.deleted_at

-- The WHERE of `claim_due`.
abbrev pub is_due : ℕ → Database → Domain → Bool
is_due now db d =
    is_watched d
    && (some_and d.next_check_at (λ at. leb at now) && not (any (is_active_for d.id) db.tasks))

-- The SELECT of `claim_due`.
unfoldable pub due_domains : ℕ → ℕ → Database → List Domain
due_domains now limit db = take limit (sort_by is_before (select (is_due now db) db.domains))

-- One turn of the loop of `claim_due`.
unfoldable pub claim_row : ℕ → ℕ → Domain → Database → Result Database
claim_row now interval d db = do
  n ← advance (or_else d.next_check_at 0) interval now
  ok (write_domain (record (with_next d n) { updated_at = now; version = d.version + 1 }) db)

unfoldable pub claim_rows : ℕ → ℕ → List Domain → Database → Result Database
claim_rows now interval [] db = ok db
claim_rows now interval (d ∷ ds) db = do
  db1 ← claim_row now interval d db
  claim_rows now interval ds db1

-- `claim_due`
unfoldable pub claim_due : ℕ → ℕ → ℕ → Database → Result (List Domain × Database)
claim_due now due limit db = do
  let rows = due_domains now limit db
  db1 ← claim_rows now (due - now) rows db
  ok (rows, db1)

-- The record that `run_once` builds, with the default number of attempts.
abbrev pub scheduled_task : ℕ → Domain → ℕ → Task
scheduled_task id d now = record {
  id = id;
  user_id = d.user_id;
  domain_id = d.id;
  status = queued;
  origin = scheduled;
  force_refresh = false;
  attempt_count = 0;
  max_attempts = 5;
  available_at = now;
  lease_token = none;
  lease_owner = none;
  lease_until = none;
  started_at = none;
  completed_at = none;
  check_id = none;
  source_check_id = none;
  error_code = none;
  error_message = none;
  result_code = none;
  result_message = none;
  fresh_until = none;
  created_at = now;
  updated_at = now;
}

-- What a pass draws from its surroundings: the identifiers of the tasks and of their idempotency
-- records, the keys, and the fingerprint.
pub record Pass : Type 0 where
  pub task_id : ℕ → ℕ
  pub record_id : ℕ → ℕ
  pub key : ℕ → ℕ → String
  pub fingerprint : String

unfoldable pub enqueue_rows : Pass → ℕ → ℕ → List Domain → Database → Result Database
enqueue_rows p now interval [] db = ok db
enqueue_rows p now interval (d ∷ ds) db = do
  (t, db1) ←
      add_task (p.record_id d.id) (scheduled_task (p.task_id d.id) d now) (p.key d.id now)
        p.fingerprint (now + interval) db
  enqueue_rows p now interval ds db1

-- `run_once`
unfoldable pub run_pass : Pass → (interval limit now : ℕ) → Database → Result (ℕ × Database)
run_pass p interval limit now db = do
  (rows, db1) ← claim_due now (now + interval) limit db
  db2 ← enqueue_rows p now interval rows db1
  ok (length rows, db2)

-- The scheduled work of a domain that nobody has in hand.
abbrev pub is_stuck : ℕ → Task → Bool
is_stuck now t =
    is_queued t.status || (is_running t.status && some_and t.lease_until (λ until. leb until now))

abbrev pub is_waiting_for : ℕ → ℕ → Task → Bool
is_waiting_for domain now t =
    eqb t.domain_id domain
    && (is_scheduled t.origin
        && ((is_queued t.status && leb t.available_at now)
            || (is_running t.status && some_and t.lease_until (λ until. leb until now))))

-- The WHERE of `spread_due`.
abbrev pub is_overdue : ℕ → Database → Domain → Bool
is_overdue now db d =
    is_watched d
    && (some_and d.next_check_at (λ at. leb at now) || any (is_waiting_for d.id now) db.tasks)

-- `scheduled_at`, for an offset in seconds. Offsets are numbers, so max(0, ...) is the identity.
unfoldable pub spread_at : ℕ → ℕ → (ℕ → ℕ) → ℕ
spread_at now interval offset =
    let upper = interval / 1000000 in
    let at = now + min (offset upper) upper * 1000000 in if leb at now then now + 1 else at

abbrev pub requeued : ℕ → ℕ → Task → Task
requeued now at t = record t {
  status = queued;
  available_at = at;
  updated_at = now;
  lease_token = none;
  lease_owner = none;
  lease_until = none;
}

-- One turn of the loop of `spread_due`.
unfoldable pub spread_row : ℕ → ℕ → Domain → Database → Database
spread_row now at d db =
    let db1 =
      write_domain (record (with_next d at) { updated_at = now; version = d.version + 1 }) db in
    record db1 {
      tasks =
          update (λ (t : Task). eqb t.domain_id d.id && (is_stuck now t && is_scheduled t.origin))
            (requeued now at) db1.tasks;
    }

unfoldable pub spread_rows : ℕ → (ℕ → ℕ) → List Domain → Database → Database
spread_rows now at [] db = db
spread_rows now at (d ∷ ds) db = spread_rows now at ds (spread_row now (at d.id) d db)

-- `spread_due`, with the random offset that each domain draws.
unfoldable pub spread_due : (now interval limit : ℕ) → (ℕ → ℕ → ℕ) → Database → ℕ × Database
spread_due now interval limit offset db =
    let rows = take limit (sort_by is_before (select (is_overdue now db) db.domains)) in
    (length rows, spread_rows now (λ id. spread_at now interval (offset id)) rows db)
