-- ===== src/Tests/TaskRuns.antt =====
-- Claims, leases and turns at concrete inputs.
use domains_manager.Base.{◌≤◌, ◌≡◌, refl, false, ◌&&◌, none, some, [], arith, any, is_some, eqb}
use domains_manager.Base.Result.{ok}
use domains_manager.Base.Table.{find, count}
use domains_manager.Models.{Task, Database, queued}
use domains_manager.Tasks.Leases.{
  is_claimable, has_domain, claim, claim_write, locked_task, heartbeat, defer_rate_limited,
}
use domains_manager.Tasks.Complete.{complete_success, complete_if_fresh, complete_failure}
use domains_manager.Tasks.Service.{refused, rate_limited, temporary_failure, finish}
use domains_manager.Tasks.Service.Turns.{finish_releases, finish_retries}
use domains_manager.Tasks.Steps.{here, next, claims}
use domains_manager.Tasks.Single.Defs.{IsSingle}
use domains_manager.Tasks.Single.Runs.{Reach-IsSingle}
use domains_manager.Tasks.Fencing.{HasUniqueIds, stale_lease_refused}
use domains_manager.Tasks.Claims.{claim_exact}
use domains_manager.Tests.Data.{
  platform, fresh_ids, policy, turn, waiting_task, running_task, waiting_db, running_db,
}

waiting-IsSingle : IsSingle waiting_db
unfolding count
waiting-IsSingle d = ground arith

waiting_unique : HasUniqueIds waiting_db
unfolding count
waiting_unique id = ground arith

abbrev claimed_db : Database
claimed_db = (claim 70 "w1" 30 150 waiting_db).1

Reach-IsSingle_example : IsSingle claimed_db
Reach-IsSingle_example = Reach-IsSingle waiting-IsSingle (next here (claims 70 "w1" 30 150 refl))

written : (claim_write 1 70 "w1" 30 150 waiting_db).0 ≡ some running_task
unfolding claim_write find
written = refl

stale_lease_refused_example :
    let db' = (claim_write 1 70 "w1" 30 150 waiting_db).1 in
    (heartbeat 1 (some 60) 400 90 db' ≡ (false, db'))
    × (defer_rate_limited 1 (some 60) 90 500 "slow" db' ≡ (false, db'))
    × (complete_success platform fresh_ids 41 1 (some 60) 90 5 [] 700 db' ≡ ok (none, db'))
    × (complete_if_fresh 1 (some 60) 90 20 400 700 "slow" db' ≡ ok (false, db'))
    × (complete_failure platform fresh_ids 41 1 (some 60) 90 5 "not_found" "slow" none db'
        ≡ (none, db'))
stale_lease_refused_example =
    stale_lease_refused platform fresh_ids 41 1 60 70 "w1" 30 150 90 5 [] 700 400 20 500 none
      "not_found" "slow" waiting_db running_task waiting_unique (ground arith) written

claim_exact_example :
    is_some (claim 70 "w1" 30 150 waiting_db).0
    ≡ any (λ t. is_claimable 30 t && has_domain waiting_db t) waiting_db.tasks
claim_exact_example = claim_exact 70 "w1" 30 150 waiting_db

-- The database behind a cooldown.
abbrev deferred_db : Database
deferred_db = (defer_rate_limited 1 (some 70) 90 1000090 "endpoint rate limited" running_db).1

cooled :
    finish platform policy turn running_task
      (refused (some rate_limited) none (some 500))
      running_db
    ≡ ok deferred_db
unfolding finish
cooled = refl

finish_releases_example : locked_task 1 (some 70) deferred_db ≡ none
finish_releases_example =
    finish_releases platform policy turn running_task (refused (some rate_limited) none (some 500))
      running_db deferred_db cooled

unheld : locked_task 1 (some 70) waiting_db ≡ none
unfolding locked_task find
unheld = refl

found_running : find (λ (r : Task). eqb r.id 1) running_db.tasks ≡ some running_task
unfolding find
found_running = refl

finish_retries_example :
    (db' : Database) × (w : Task) × (finish platform policy turn running_task
        (refused (some temporary_failure) none none)
        running_db
      ≡ ok db')
    × (find (λ (r : Task). eqb r.id 1) db'.tasks ≡ some w)
    × (w.status ≡ queued)
    × (w.available_at ≤ 3690)
    × (w.attempt_count ≡ 1)
    × (w.lease_token ≡ none)
finish_retries_example =
    finish_retries platform policy turn running_task running_task (some temporary_failure) none none
      running_db refl found_running refl

found_waiting : find (λ (r : Task). eqb r.id 1) waiting_db.tasks ≡ some waiting_task
unfolding find
found_waiting = refl
