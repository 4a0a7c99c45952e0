-- ===== src/Tasks/Complete/Effects.antt =====
-- What the three completions leave of each table, with the parts of `Tasks/Complete.antt` opened
-- only here.
use domains_manager.Base.{
  ℕ, ◌≡◌, refl, ◌⊎◌, String, Bool, true, false, ◌&&◌, Option, none, some, List, [], ◌∷◌, inl, inr,
  arith, Option-cases, if◌then◌else◌, leb,
}
use domains_manager.Base.Result.{ok, bind_ok}
use domains_manager.Base.Table.{update}
use domains_manager.Models.{Task, Check, Database, Snapshot, is_scheduled}
use domains_manager.Tasks.Leases.{locked_task, write_task, is_leased}
use domains_manager.Tasks.Snapshots.{Platform, newest, is_success}
use domains_manager.Tasks.Notices.{Fresh, queue_notifications, queue_expiration_notifications}
use domains_manager.Tasks.Complete.{
  complete_success, complete_if_fresh, complete_failure, refresh_row, notify_success, success_check,
  skip_check, failure_check, fail_row, succeeded, kept_fresh, failed_with,
}

queue_expiration_tasks :
    (p : Platform) (fresh : Fresh) (t : Task) (c : Check) (at : ℕ) (db db' : Database)
    → queue_expiration_notifications p fresh t c at db ≡ ok db'
    → (db'.tasks ≡ db.tasks) × (db'.checks ≡ db.checks) × (db'.domains ≡ db.domains)
unfolding queue_expiration_notifications
queue_expiration_tasks p fresh t c at db db' h = (ground arith, ground arith, ground arith)

notify_success_tasks :
    (p : Platform) (fresh : Fresh) (t : Task) (c : Check) (at : ℕ) (db db' : Database)
    (fs : List String)
    → c.changed_fields ≡ fs
    → notify_success p fresh t c at db ≡ ok db'
    → (db'.tasks ≡ db.tasks) × (db'.checks ≡ db.checks) × (db'.domains ≡ db.domains)
unfolding notify_success queue_notifications
notify_success_tasks p fresh t c at db db' [] e h =
    queue_expiration_tasks p fresh t c at db db' (rw (e, notify_success) at h)
notify_success_tasks p fresh t c at db db' (f ∷ fs) e h =
    queue_expiration_tasks p fresh t c at _ db' (rw (e, notify_success) at h)

refresh_row_tasks :
    (p : Platform) (t : Task) (s : Snapshot) (at next : ℕ) (db db' : Database)
    → refresh_row p t s at next db ≡ ok db'
    → (db'.tasks ≡ db.tasks) × (db'.checks ≡ db.checks)
unfolding refresh_row
refresh_row_tasks p t s at next db db' h = (ground arith, ground arith)

-- A completion under a lease that is gone changes nothing; otherwise the leased row, and no other
-- task, is the succeeded one, and one check is new.
pub complete_success_tasks :
    (p : Platform) (fresh : Fresh) (check id : ℕ) (token : Option ℕ) (at duration : ℕ)
    (s : Snapshot) (next : ℕ) (db : Database) {t : Task} {o : Option Check} {db' : Database}
    → locked_task id token db ≡ some t
    → complete_success p fresh check id token at duration s next db ≡ ok (o, db')
    → (db'.tasks ≡ update (is_leased id token) (succeeded check at) db.tasks)
      × (db'.checks ≡ success_check p check t at duration s db ∷ db.checks)
      × (o ≡ some (success_check p check t at duration s db))
unfolding complete_success
complete_success_tasks p fresh check id token at duration s next db {t} {o} {db'} e h =
    let c = success_check p check t at duration s db in
    let (db1, e1, h1) =
      bind_ok (refresh_row p t s at next (record db { checks = c ∷ db.checks })) _
        (rw (e, complete_success) at h) in
    let (db2, e2, h2) =
      bind_ok (notify_success p fresh t c at (write_task id token (succeeded check at) db1)) _ h1 in
    let r1 = refresh_row_tasks p t s at next _ db1 e1 in
    let r2 = notify_success_tasks p fresh t c at _ db2 c.changed_fields refl e2 in
    (ground arith, ground arith, ground arith)

pub complete_success-none :
    (p : Platform) (fresh : Fresh) (check id : ℕ) (token : Option ℕ) (at duration : ℕ)
    (s : Snapshot) (next : ℕ) (db : Database)
    → locked_task id token db ≡ none
    → complete_success p fresh check id token at duration s next db ≡ ok (none, db)
unfolding complete_success
complete_success-none p fresh check id token at duration s next db e = rw (e, complete_success)

skip_check_tasks :
    (t : Task) (at next : ℕ) (db db' : Database)
    → skip_check t at next db ≡ ok db'
    → (db'.tasks ≡ db.tasks) × (db'.checks ≡ db.checks)
unfolding skip_check
skip_check_tasks t at next db db' h = (ground arith, ground arith)

skipped_tasks :
    (b : Bool) (t : Task) (at next : ℕ) (db db' : Database)
    → (if b then skip_check t at next db else ok db) ≡ ok db'
    → (db'.tasks ≡ db.tasks) × (db'.checks ≡ db.checks)
skipped_tasks true t at next db db' h = skip_check_tasks t at next db db' h
skipped_tasks false t at next db db' h = ground arith

-- The rows that the test for fresh data leaves.
pub complete_if_fresh_rows :
    (id : ℕ) (token : Option ℕ) (at fresh_after until next : ℕ) (message : String) (db : Database)
    {b : Bool} {db' : Database}
    → complete_if_fresh id token at fresh_after until next message db ≡ ok (b, db')
    → ((b ≡ false) × (db' ≡ db))
      ⊎ ((b ≡ true)
          × (t : Task) × (c : Check) × (locked_task id token db ≡ some t)
          × (newest (λ c. is_success t.domain_id c && leb fresh_after c.checked_at) db.checks
              ≡ some c)
          × (db'.tasks ≡ update (is_leased id token) (kept_fresh c.id message until at) db.tasks)
          × (db'.checks ≡ db.checks))
unfolding complete_if_fresh
complete_if_fresh_rows id token at fresh_after until next message db {b} {db'} h =
    elim (Option-cases (locked_task id token db)) [
      | inl e ↦ inl (ground arith)
      | inr (t, e) ↦
          elim (Option-cases
            (newest (λ c. is_success t.domain_id c && leb fresh_after c.checked_at) db.checks)) [
              | inl f ↦ inl (ground arith)
              | inr (c, f) ↦
                  let (db1, e1, h1) =
                    bind_ok (if is_scheduled t.origin then skip_check t at next db else ok db) _
                      (rw (e, f, complete_if_fresh) at h) in
                  let r = skipped_tasks (is_scheduled t.origin) t at next db db1 e1 in
                  inr (ground arith, t, c, e, f, ground arith, ground arith)
            ]
    ]

-- A failure writes the leased row and no other task, and adds one check.
pub complete_failure_tasks :
    (p : Platform) (fresh : Fresh) (check id : ℕ) (token : Option ℕ) (at duration : ℕ)
    (code message : String) (retry : Option ℕ) (db : Database) {t : Task}
    → locked_task id token db ≡ some t
    → let r = complete_failure p fresh check id token at duration code message retry db in
      (r.1.tasks ≡ update (is_leased id token) (failed_with check at code message retry) db.tasks)
      × (r.1.checks ≡ failure_check check t at duration code message ∷ db.checks)
      × (r.0 ≡ some (failure_check check t at duration code message))
unfolding complete_failure queue_notifications fail_row
complete_failure_tasks p fresh check id token at duration code message retry db e =
    (ground arith, ground arith, ground arith)
