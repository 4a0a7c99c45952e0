-- ===== src/Tasks/Complete.antt =====
-- `complete_success`, `complete_if_fresh` and `complete_failure`: the ways a running task ends, or
-- goes back to the queue. An `err` is an exception, after which the unit of work rolls back.
pub mod Effects
pub mod Citing
use domains_manager.Base.{
  ℕ, ◌+◌, String, Bool, true, false, ◌&&◌, Option, none, some, [], ◌∷◌, eqb, leb, if◌then◌else◌,
  is_some, is_none, or_else, string_eq,
}
use domains_manager.Base.Result.{Result, ok, ◌>>=◌}
use domains_manager.Base.Table.{update}
use domains_manager.Models.{
  Task, Check, Domain, Database, queued, failed, success, info, null, Snapshot, prefix,
  is_scheduled, status_changed, query_failed,
}
use domains_manager.Tasks.Leases.{locked_task, write_task, domain_of}
use domains_manager.Tasks.Snapshots.{
  Platform, field_of, changed_fields, previous_success_snapshot, refreshed_domain, newest,
  is_success,
}
use domains_manager.Tasks.Notices.{Fresh, queue_notifications, queue_expiration_notifications}
use domains_manager.Tasks.Schedule.{reschedule, advance_due}

-- The flush of the ORM writes the domain under its primary key.
abbrev pub write_domain : Domain → Database → Database
write_domain d' db = record db { domains = update (λ d. eqb d.id d'.id) (λ d. d') db.domains }

-- The assignments to a task that ended.
abbrev pub released_at : ℕ → Task → Task
released_at at t = record t {
  lease_token = none;
  lease_owner = none;
  lease_until = none;
  updated_at = at;
}

abbrev pub succeeded : ℕ → ℕ → Task → Task
succeeded check at t = released_at at (record t {
  status = success;
  error_code = none;
  error_message = none;
  check_id = some check;
  result_code = some "refreshed";
  result_message = none;
  source_check_id = none;
  fresh_until = none;
  completed_at = some at;
})

unfoldable pub success_check : Platform → ℕ → Task → ℕ → ℕ → Snapshot → Database → Check
success_check p check t at duration s db = record {
  id = check;
  domain_id = t.domain_id;
  checked_at = at;
  duration_ms = duration;
  outcome = "success";
  error_code = none;
  error_message = none;
  protocol = field_of "source" s;
  source = field_of "source_url" s;
  snapshot = some s;
  snapshot_hash = some (p.digest s);
  changed_fields = changed_fields (previous_success_snapshot t.domain_id db) s;
  is_stale = false;
  created_at = at;
}

-- The block under `if domain is not None` of `complete_success`.
refresh_row : Platform → Task → Snapshot → ℕ → ℕ → Database → Result Database
refresh_row p t s at next db = elim (domain_of db t) [
  | none ↦ ok db
  | some d ↦ (do
    d1 ← refreshed_domain p s at d
    d2 ← reschedule t.origin at next d1
    ok (write_domain (record d2 { updated_at = at; version = d2.version + 1 }) db))
]

notify_success : Platform → Fresh → Task → Check → ℕ → Database → Result Database
notify_success p fresh t c at db = elim c.changed_fields [
  | [] ↦ queue_expiration_notifications p fresh t c at db
  | f ∷ fs ↦
      queue_expiration_notifications p fresh t c at
        (queue_notifications p fresh t c status_changed at db)
]

-- `complete_success`, with the identifier of its check.
unfoldable pub complete_success :
    Platform
    → Fresh
    → ℕ
    → ℕ
    → Option ℕ
    → ℕ
    → ℕ
    → Snapshot
    → ℕ
    → Database
    → Result (Option Check × Database)
unfolding success_check refresh_row notify_success
complete_success p fresh check id token at duration s next db = elim (locked_task id token db) [
  | none ↦ ok (none, db)
  | some t ↦ (do
    let c = success_check p check t at duration s db
    db1 ← refresh_row p t s at next (record db { checks = c ∷ db.checks })
    db2 ← notify_success p fresh t c at (write_task id token (succeeded check at) db1)
    ok (some c, db2))
]

abbrev pub kept_fresh : ℕ → String → ℕ → ℕ → Task → Task
kept_fresh source message until at t = released_at at (record t {
  status = info;
  error_code = none;
  error_message = none;
  check_id = none;
  source_check_id = some source;
  result_code = some "data_fresh";
  result_message = some (prefix 512 message);
  fresh_until = some until;
  completed_at = some at;
})

-- The block under `if task.origin == "scheduled"` of `complete_if_fresh`.
skip_check : Task → ℕ → ℕ → Database → Result Database
skip_check t at next db = elim (domain_of db t) [
  | none ↦ ok db
  | some d ↦ elim d.next_check_at [
    | none ↦ ok db
    | some due ↦
        if leb due at
        then (do
          d' ← advance_due due at next d
          ok (write_domain (record d' { updated_at = at; version = d'.version + 1 }) db))
        else ok db
  ]
]

unfoldable pub complete_if_fresh :
    ℕ → Option ℕ → (at fresh_after until next : ℕ) → String → Database → Result (Bool × Database)
unfolding skip_check
complete_if_fresh id token at fresh_after until next message db = elim (locked_task id token db) [
  | none ↦ ok (false, db)
  | some t ↦
      elim (newest (λ c. is_success t.domain_id c && leb fresh_after c.checked_at) db.checks) [
        | none ↦ ok (false, db)
        | some latest ↦ (do
          db1 ← if is_scheduled t.origin then skip_check t at next db else ok db
          ok (true, write_task id token (kept_fresh latest.id message until at) db1))
      ]
]

unfoldable pub failure_check : ℕ → Task → ℕ → ℕ → String → String → Check
failure_check check t at duration code message = record {
  id = check;
  domain_id = t.domain_id;
  checked_at = at;
  duration_ms = duration;
  outcome = code;
  error_code = some code;
  error_message = some (prefix 512 message);
  protocol = null;
  source = null;
  snapshot = none;
  snapshot_hash = none;
  changed_fields = [];
  is_stale = false;
  created_at = at;
}

abbrev pub failed_with : ℕ → ℕ → String → String → Option ℕ → Task → Task
failed_with check at code message retry_at t = released_at at (record t {
  status = if is_some retry_at then queued else failed;
  check_id = some check;
  error_code = some code;
  error_message = some (prefix 512 message);
  result_code = if is_none retry_at then some "failed" else none;
  result_message = if is_none retry_at then some (prefix 512 message) else none;
  source_check_id = none;
  fresh_until = none;
  completed_at = if is_none retry_at then some at else none;
  available_at = or_else retry_at t.available_at;
})

fail_row : Task → ℕ → String → Database → Database
fail_row t at code db = elim (domain_of db t) [
  | none ↦ db
  | some d ↦
      write_domain
        (record d {
          last_check_at = some at;
          last_outcome = some code;
          updated_at = at;
          version = d.version + 1;
        })
        db
]

unfoldable pub complete_failure :
    Platform
    → Fresh
    → ℕ
    → ℕ
    → Option ℕ
    → (at duration : ℕ) → (code message : String) → Option ℕ
    → Database
    → Option Check × Database
unfolding failure_check fail_row
complete_failure p fresh check id token at duration code message retry_at db =
    elim (locked_task id token db) [
      | none ↦ (none, db)
      | some t ↦
          let c = failure_check check t at duration code message in
          let db1 = fail_row t at code (record db { checks = c ∷ db.checks }) in
          let db2 = write_task id token (failed_with check at code message retry_at) db1 in
          (some c, queue_notifications p fresh t c query_failed at db2)
    ]
