-- ===== src/Tasks/Service.antt =====
-- RefreshTaskService of domainsmanager_application/tasks.py: enqueueing under an idempotency key,
-- and one turn of a worker. A turn is three transactions; what other workers commit between them
-- is an argument.
pub mod Turns
use Prim.Native.String.{◌++◌ as str_append}
use domains_manager.Base.{
  ℕ, ◌+◌, ◌-◌, ◌*◌, ◌^◌, ◌/◌, ◌%◌, String, Bool, true, false, ◌&&◌, Option, none, some, eqb, ltb,
  min, max, str_eq, if◌then◌else◌, is_none, or_else, string_eq,
}
use domains_manager.Base.Result.{
  Result, ok, domain_not_found, task_not_found, idempotency_conflict, value_error, or_raise, guard,
  ◌>>=◌, ◌>>◌,
}
use domains_manager.Base.Dict.{get}
use domains_manager.Base.Table.{find}
use domains_manager.Models.{Task, Domain, Database, Origin, Snapshot, queued}
use domains_manager.Tasks.Leases.{claim, defer_rate_limited, domain_of}
use domains_manager.Tasks.Enqueue.{get_idempotent, get_task, add_task}
use domains_manager.Tasks.Snapshots.{Platform}
use domains_manager.Tasks.Notices.{Fresh, days}
use domains_manager.Tasks.Complete.{complete_success, complete_if_fresh, complete_failure}

-- TaskExecutionPolicy, in microseconds.
pub record Policy : Type 0 where
  pub lease_duration : ℕ
  pub successful_check_interval : ℕ
  pub successful_refresh_ttl : ℕ
  pub max_attempts : ℕ
  pub retry_base_delay : ℕ
  pub retry_max_delay : ℕ

abbrev pub seconds : ℕ → ℕ
seconds n = n * 1000000

-- `retry_at`
unfoldable pub retry_at : Policy → ℕ → ℕ → ℕ
retry_at p now attempts = now + min (p.retry_base_delay * 2 ^ (attempts - 1)) p.retry_max_delay

-- LookupErrorCode
pub data ErrorCode : Type 0 where
  invalid_domain not_found unsupported rate_limited temporary_failure unexpected_response :
      ErrorCode

abbrev pub value_of : ErrorCode → String
value_of invalid_domain = "invalid_domain"
value_of not_found = "not_found"
value_of unsupported = "unsupported"
value_of rate_limited = "rate_limited"
value_of temporary_failure = "temporary_failure"
value_of unexpected_response = "unexpected_response"

-- `_is_retryable`
abbrev pub is_retryable : Option ErrorCode → Bool
is_retryable (some rate_limited) = true
is_retryable (some temporary_failure) = true
is_retryable _ = false

-- LookupOutcome, by `succeeded`.
pub data Outcome : Type 0 where
  found : Snapshot → Outcome
  refused : Option ErrorCode → Option String → Option ℕ → Outcome

-- message or default
abbrev pub message_or : Option String → String → String
message_or none default = default
message_or (some m) default = if str_eq m "" then default else m

-- `_fresh_message`
fresh_value : Platform → ℕ → String
fresh_value p s =
    if eqb (s % 86400) 0
    then str_append (p.decimal (s / 86400)) "天"
    else if eqb (s % 3600) 0
    then str_append (p.decimal (s / 3600)) "小时"
    else if eqb (s % 60) 0
    then str_append (p.decimal (s / 60)) "分钟"
    else str_append (p.decimal s) "秒"

unfoldable pub fresh_message : Platform → ℕ → String
unfolding fresh_value
fresh_message p ttl = str_append "距上次成功刷新不足" (fresh_value p (ttl / 1000000))

-- `get_successful_refresh_ttl_seconds`
unfoldable pub refresh_ttl_seconds : Platform → Policy → Database → Result ℕ
refresh_ttl_seconds p policy db = elim (get "successful_refresh_ttl_seconds" db.settings) [
  | none ↦ ok (policy.successful_refresh_ttl / 1000000)
  | some configured ↦ or_raise (p.int configured) value_error
]

-- The record that `enqueue` builds.
unfoldable pub new_task : Policy → ℕ → ℕ → ℕ → Bool → Origin → ℕ → Task
new_task policy id user domain force origin now = record {
  id = id;
  user_id = user;
  domain_id = domain;
  status = queued;
  origin = origin;
  force_refresh = force;
  attempt_count = 0;
  max_attempts = policy.max_attempts;
  available_at = now;
  lease_token = none;
  lease_owner = none;
  lease_until = none;
  started_at = none;
  completed_at = none;
  check_id = none;
  source_check_id = none;
  error_code = none;
  error_message = none;
  result_code = none;
  result_message = none;
  fresh_until = none;
  created_at = now;
  updated_at = now;
}

-- `uow.domains.get`: the user's domain, unless it was deleted.
abbrev pub live_domain : ℕ → ℕ → Database → Option Domain
live_domain user domain db =
    find (λ (d : Domain). eqb d.id domain && (eqb d.user_id user && is_none d.deleted_at))
      db.domains

-- `enqueue`, with the identifiers of the new task and of its idempotency record, and the
-- fingerprints of the two values of the flag.
unfoldable pub enqueue :
    Policy
    → (Bool → String)
    → (id fresh user domain : ℕ) → Bool
    → String
    → Origin
    → (now : ℕ) → Database
    → Result (Task × Database)
enqueue policy digest id fresh user domain force key origin now db = do
  live ← or_raise (live_domain user domain db) domain_not_found
  elim (get_idempotent user domain key db) [
    | some existing ↦ (do
      guard (str_eq existing.fingerprint (digest force)) idempotency_conflict
      task ← or_raise (get_task user existing.task_id db) task_not_found
      ok (task, db))
    | none ↦
        add_task fresh (new_task policy id user domain force origin now) key (digest force)
          (now + days 1) db
  ]

-- What one turn draws from its surroundings: clock readings, identifiers, the lookup, and what
-- other sessions commit behind the claim and behind the freshness test.
pub record Turn : Type 0 where
  pub worker : String
  pub token : ℕ
  pub check : ℕ
  pub fresh : Fresh
  pub claimed_at : ℕ
  pub tested_at : ℕ
  pub finished_at : ℕ
  pub duration : ℕ
  pub lookup : String → Bool → Outcome
  pub meanwhile : Database → Database
  pub during_lookup : Database → Database

abbrev name_of : Database → Task → String
name_of db t = elim (domain_of db t) [ none ↦ "" | some d ↦ d.name_ascii ]

-- retry_at of the failure branch
unfoldable pub retry_of : Policy → Task → Option ErrorCode → ℕ → Option ℕ
retry_of policy t code at =
    if is_retryable code && ltb t.attempt_count t.max_attempts
    then some (retry_at policy at t.attempt_count)
    else none

abbrev pub is_cooldown : Option ErrorCode → Option ℕ → Bool
is_cooldown (some rate_limited) (some at) = true
is_cooldown _ _ = false

-- The last transaction of `run_once`.
unfoldable pub finish : Platform → Policy → Turn → Task → Outcome → Database → Result Database
finish p policy turn t (found s) db = do
  (c, db') ←
      complete_success p turn.fresh turn.check t.id t.lease_token turn.finished_at turn.duration s
        (turn.finished_at + policy.successful_check_interval) db
  ok db'
finish p policy turn t (refused code message retry_after) db =
    if is_cooldown code retry_after
    then ok
        (defer_rate_limited t.id t.lease_token turn.finished_at
          (max (or_else retry_after 0) (turn.finished_at + seconds 1))
          (message_or message "endpoint rate limited") db).1
    else ok
        (complete_failure p turn.fresh turn.check t.id t.lease_token turn.finished_at turn.duration
          (elim code [ none ↦ "unexpected_response" | some c ↦ value_of c ])
          (message_or message "lookup failed") (retry_of policy t code turn.finished_at) db).1

-- `run_once`
unfoldable pub run_once : Platform → Policy → Turn → Database → Result (Bool × Database)
run_once p policy turn db =
    let (claimed, db1) =
      claim turn.token turn.worker turn.claimed_at (turn.claimed_at + policy.lease_duration) db in
    elim claimed [
      | none ↦ ok (false, db)
      | some t ↦ (do
        let db2 = turn.meanwhile db1
        ttl ← refresh_ttl_seconds p policy db2
        (kept, db3) ←
            complete_if_fresh t.id t.lease_token turn.tested_at (turn.tested_at - seconds ttl)
              (turn.tested_at + seconds ttl) (turn.tested_at + policy.successful_check_interval)
              (fresh_message p (seconds ttl)) db2
        if kept then ok (true, db3) else (do
          let db4 = turn.during_lookup db3
          db5 ← finish p policy turn t (turn.lookup (name_of db1 t) t.force_refresh) db4
          ok (true, db5)))
    ]
