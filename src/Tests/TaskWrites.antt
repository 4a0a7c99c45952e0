-- ===== src/Tests/TaskWrites.antt =====
-- Requests, schedules, completions and notifications at concrete inputs.
use domains_manager.Base.{
  Mem, any, ltb, ℕ, ◌+◌, ◌*◌, ◌≤◌, ◌<◌, ◌≡◌, refl, true, false, ◌&&◌, none, some, [], ◌∷◌, arith,
  ◌⊎◌,
}
use domains_manager.Base.Result.{ok}
use domains_manager.Base.Table.{find, update, count, select}
use domains_manager.Models.{Task, Check, Database, status_changed}
use domains_manager.Tasks.Leases.{locked_task, is_leased}
use domains_manager.Tasks.Enqueue.{
  get_idempotent, add_task, place, insert_or_merge, insert_task, active_for_domain, add_idempotency,
  get_task,
}
use domains_manager.Tasks.Complete.{complete_if_fresh, kept_fresh}
use domains_manager.Tasks.Complete.Citing.{is_recent, IsClosedFresh, complete_if_fresh_tasks}
use domains_manager.Tasks.Snapshots.{newest}
use domains_manager.Tasks.Schedule.{advance, advance_due}
use domains_manager.Tasks.Schedule.Grid.{advance_grid}
use domains_manager.Tasks.Notices.{queue_notifications, is_rule_for}
use domains_manager.Tasks.Notices.Once.{HasUniqueKeys, has_key, queue_notifications_once}
use domains_manager.Tasks.Replays.{add_task_replay}
use domains_manager.Tests.Data.{
  platform, fresh_ids, domain, waiting_task, running_task, webhook_rule, good_check, idle,
  running_db,
}

-- The database behind the first request.
abbrev requested_db : Database
requested_db = record idle {
  tasks = waiting_task ∷ [];
  idempotency =
      record {
        id = 800;
        user_id = 8;
        resource_id = 3;
        key = "k";
        fingerprint = "f";
        task_id = 1;
        created_at = 10;
        expires_at = 99;
      }
      ∷ [];
}

new_key : get_idempotent 8 3 "k" idle ≡ none
unfolding get_idempotent find
new_key = refl

requested : add_task 800 waiting_task "k" "f" 99 idle ≡ ok (waiting_task, requested_db)
unfolding add_task place insert_or_merge insert_task active_for_domain add_idempotency
    get_idempotent find
requested = refl

readable : get_task 8 1 requested_db ≡ some waiting_task
unfolding get_task find
readable = refl

add_task_replay_example :
    add_task 801 (record waiting_task { id = 2; force_refresh = true }) "k" "f" 120 requested_db
    ≡ ok (waiting_task, requested_db)
add_task_replay_example =
    add_task_replay 800 801 waiting_task (record waiting_task { id = 2; force_refresh = true }) "k"
      "f" 99 120 idle waiting_task waiting_task requested_db new_key requested refl refl readable

advanced : advance 10 7 40 ≡ ok 45
unfolding advance
advanced = refl

advance_grid_example : (40 < 45) × (45 ≤ 40 + 7) × ((k : ℕ) × (45 ≡ 10 + 7 * k))
advance_grid_example = advance_grid 10 7 40 45 (omega arith) advanced

no_messages : HasUniqueKeys idle.outbox
unfolding count
no_messages key = ground arith

first_rule :
    find (λ r. true) (select (is_rule_for running_task status_changed) idle.rules)
    ≡ some webhook_rule
unfolding find select
first_rule = refl

queue_notifications_once_example :
    let after =
      (queue_notifications platform fresh_ids running_task good_check status_changed 90
        idle).outbox in
    HasUniqueKeys after
    × (count (λ o. true) idle.outbox ≤ count (λ o. true) after)
    × (count (has_key "key") after ≡ 1)
queue_notifications_once_example =
    queue_notifications_once platform fresh_ids running_task good_check status_changed 90 idle
      (λ r. true) webhook_rule (λ o. true) no_messages first_rule refl

-- The database behind a test that found fresh data.
abbrev fresh_db : Database
fresh_db = record running_db {
  tasks = kept_fresh 40 "fresh" 400 31 running_task ∷ [];
  domains = record (domain) { next_check_at = some 710; updated_at = 31; version = 2 } ∷ [];
}

kept : complete_if_fresh 1 (some 70) 31 20 400 731 "fresh" running_db ≡ ok (true, fresh_db)
unfolding complete_if_fresh locked_task find newest advance_due advance update
kept = refl

complete_if_fresh_tasks_example :
    ((true ≡ false) × (fresh_db ≡ running_db))
    ⊎ ((true ≡ true)
        × (t : Task) × (c : Check) × (closed : Task → Task) × (find
              (is_leased 1 (some 70))
              running_db.tasks
            ≡ some t)
        × Mem c running_db.checks
        × (is_recent t.domain_id 20 c ≡ true)
        × (any (λ u. is_recent t.domain_id 20 u && ltb c.checked_at u.checked_at) running_db.checks
            ≡ false)
        × (fresh_db.tasks ≡ update (is_leased 1 (some 70)) closed running_db.tasks)
        × ((u : Task) → IsClosedFresh c.id "fresh" 400 31 u (closed u))
        × (find (is_leased 1 (some 70)) fresh_db.tasks ≡ none)
        × (fresh_db.checks ≡ running_db.checks))
complete_if_fresh_tasks_example =
    complete_if_fresh_tasks 1 (some 70) 31 20 400 731 "fresh" running_db kept
