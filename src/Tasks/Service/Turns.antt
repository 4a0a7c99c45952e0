-- ===== src/Tasks/Service/Turns.antt =====
-- The end of a worker's turn: late workers change nothing, every end gives the lease up, retries are
-- bounded and their delays too, and a cooldown costs no attempt.
use domains_manager.Base.{
  ℕ, ◌+◌, ◌≤◌, ◌≡◌, refl, String, Bool, true, false, ◌&&◌, Option, none, some, List, [], ◌∷◌, eqb,
  inl, inr, arith, Bool-cases, Option-cases, if◌then◌else◌, or_else, max, ltb,
}
use domains_manager.Base.Result.{ok, bind_ok}
use domains_manager.Base.Table.{find, find_sound, update, find-update, find-update-none}
use domains_manager.Models.{Task, Database, queued, failed, Snapshot}
use domains_manager.Tasks.Leases.{
  is_leased, is_claimable, claimed, locked_task, claim_write, deferred, defer_rate_limited,
}
use domains_manager.Tasks.Snapshots.{Platform}
use domains_manager.Tasks.Complete.{complete_success, complete_failure, succeeded, failed_with}
use domains_manager.Tasks.Complete.Effects.{
  complete_success_tasks, complete_success-none, complete_failure_tasks,
}
use domains_manager.Tasks.Fencing.{claim_write-some}
use domains_manager.Tasks.Service.{
  Policy, Turn, Outcome, ErrorCode, found, refused, finish, retry_at, retry_of, is_retryable,
  is_cooldown, message_or, seconds, value_of,
}

-- A worker whose lease is gone when its lookup ends leaves the database as it found it, whatever
-- the lookup returned.
pub finish_stale :
    (p : Platform) (policy : Policy) (turn : Turn) (t : Task) (o : Outcome) (db : Database)
    → locked_task t.id t.lease_token db ≡ none
    → finish p policy turn t o db ≡ ok db
unfolding finish defer_rate_limited complete_failure
finish_stale p policy turn t (found s) db e = rw (
    complete_success-none p turn.fresh turn.check t.id t.lease_token turn.finished_at turn.duration
      s (turn.finished_at + policy.successful_check_interval) db e)
finish_stale p policy turn t (refused code message retry_after) db e = ground arith

-- The row under a primary key is the one that a narrower condition finds, if it satisfies it.
pub find_narrow {ℓ} :
    {R : Type ℓ} (p q : R → Bool) (rs : List R) {u : R}
    → ((r : R) → q r ≡ true → p r ≡ true)
    → find p rs ≡ some u
    → q u ≡ true
    → find q rs ≡ some u
unfolding find
find_narrow p q [] qp e h = absurd (ground arith)
find_narrow p q (r ∷ rs) {u} qp e h = ground (arith, qp r, find_narrow p q rs {u = u} qp)

-- What is read under the identifier after the row was written.
row_after :
    (id : ℕ) (q : Task → Bool) (f : Task → Task) (ts : List Task) {u : Task}
    → ((r : Task) → (f r).id ≡ r.id)
    → find (λ (r : Task). eqb r.id id) ts ≡ some u
    → q u ≡ true
    → find (λ (r : Task). eqb r.id id) (update q f ts) ≡ some (f u)
row_after id q f ts {u} same e h =
    let k = find-update (λ (r : Task). eqb r.id id) q f ts (λ r z. ground (arith, same r)) in
    ground (arith, k)

gone :
    (id : ℕ) (token : Option ℕ) (f : Task → Task) (db db' : Database)
    → ((r : Task) → is_leased id token r ≡ true → is_leased id token (f r) ≡ false)
    → db'.tasks ≡ update (is_leased id token) f db.tasks
    → locked_task id token db' ≡ none
unfolding locked_task
gone id token f db db' off e = rw e (find-update-none (is_leased id token) f db.tasks off)

finish_releases_refused :
    (p : Platform) (policy : Policy) (turn : Turn) (t u : Task) (code : Option ErrorCode)
    (message : Option String) (retry_after : Option ℕ) (db db' : Database)
    → locked_task t.id t.lease_token db ≡ some u
    → finish p policy turn t (refused code message retry_after) db ≡ ok db'
    → locked_task t.id t.lease_token db' ≡ none
unfolding finish defer_rate_limited
finish_releases_refused p policy turn t u code message retry_after db db' l h =
    let text = message_or message "lookup failed" in
    let name : String = elim code [ none ↦ "unexpected_response" | some c ↦ value_of c ] in
    let retry = retry_of policy t code turn.finished_at in
    let note = message_or message "endpoint rate limited" in
    let again = max (or_else retry_after 0) (turn.finished_at + seconds 1) in
    elim (Bool-cases (is_cooldown code retry_after)) [
      | inl c ↦
          gone t.id t.lease_token (deferred turn.finished_at again note) db db'
            (λ r z. ground arith) (ground arith)
      | inr c ↦
          gone t.id t.lease_token (failed_with turn.check turn.finished_at name text retry) db db'
            (λ r z. ground arith)
            (ground (
              arith,
              (complete_failure_tasks p turn.fresh turn.check t.id t.lease_token turn.finished_at
                  turn.duration name text retry db l).0,
            ))
    ]

finish_releases_found :
    (p : Platform) (policy : Policy) (turn : Turn) (t u : Task) (s : Snapshot) (db db' : Database)
    → locked_task t.id t.lease_token db ≡ some u
    → finish p policy turn t (found s) db ≡ ok db'
    → locked_task t.id t.lease_token db' ≡ none
unfolding finish
finish_releases_found p policy turn t u s db db' l h =
    let next = turn.finished_at + policy.successful_check_interval in
    let (r, e, k) =
      bind_ok
        (complete_success p turn.fresh turn.check t.id t.lease_token turn.finished_at turn.duration
          s next db)
        _ h in
    let same : r.1 ≡ db' = ground arith in
    gone t.id t.lease_token (succeeded turn.check turn.finished_at) db db' (λ r z. ground arith)
      (rw (← same) (
        (complete_success_tasks p turn.fresh turn.check t.id t.lease_token turn.finished_at
          turn.duration s next db l e).0))

finish_releases_held :
    (p : Platform) (policy : Policy) (turn : Turn) (t u : Task) (o : Outcome) (db db' : Database)
    → locked_task t.id t.lease_token db ≡ some u
    → finish p policy turn t o db ≡ ok db'
    → locked_task t.id t.lease_token db' ≡ none
finish_releases_held p policy turn t u (found s) db db' l h =
    finish_releases_found p policy turn t u s db db' l h
finish_releases_held p policy turn t u (refused code message retry_after) db db' l h =
    finish_releases_refused p policy turn t u code message retry_after db db' l h

-- However a turn ends, with a snapshot, an error to retry, a final error or a cooldown, if it ends
-- without an exception then no task holds its lease afterwards.
pub finish_releases :
    (p : Platform) (policy : Policy) (turn : Turn) (t : Task) (o : Outcome) (db db' : Database)
    → finish p policy turn t o db ≡ ok db'
    → locked_task t.id t.lease_token db' ≡ none
finish_releases p policy turn t o db db' h =
    elim (Option-cases (locked_task t.id t.lease_token db)) [
      | inl l ↦
          let same : db' ≡ db = ground (arith, finish_stale p policy turn t o db l) in rw same l
      | inr (u, l) ↦ finish_releases_held p policy turn t u o db db' l h
    ]

-- A lookup that failed, on the row that holds the lease, ends the task or queues it again: it is
-- queued exactly when the error is a rate limit or temporary and attempts are left, and is then
-- available no later than the largest delay after the end of the turn; otherwise it has failed, and
-- is available no later than before. Its attempts are as they were, and the lease is given up. (A
-- rate limit that names a time is not such a failure.)
pub finish_retries :
    (p : Platform) (policy : Policy) (turn : Turn) (t u : Task) (code : Option ErrorCode)
    (message : Option String) (retry_after : Option ℕ) (db : Database)
    → is_cooldown code retry_after ≡ false
    → find (λ (r : Task). eqb r.id t.id) db.tasks ≡ some u
    → is_leased t.id t.lease_token u ≡ true
    → (db' : Database) × (w : Task) × (finish p policy turn t (refused code message retry_after) db
        ≡ ok db')
      × (find (λ (r : Task). eqb r.id t.id) db'.tasks ≡ some w)
      × (w.status
          ≡ (if is_retryable code && ltb t.attempt_count t.max_attempts then queued else failed))
      × (w.available_at ≤ (
          if is_retryable code && ltb t.attempt_count t.max_attempts
          then turn.finished_at + policy.retry_max_delay
          else u.available_at))
      × (w.attempt_count ≡ u.attempt_count)
      × (w.lease_token ≡ none)
unfolding finish retry_of retry_at
finish_retries p policy turn t u code message retry_after db c e h =
    let text = message_or message "lookup failed" in
    let name : String = elim code [ none ↦ "unexpected_response" | some c ↦ value_of c ] in
    let retry = retry_of policy t code turn.finished_at in
    let l =
      find_narrow (λ (r : Task). eqb r.id t.id) (is_leased t.id t.lease_token) db.tasks
        (λ r z. ground arith) e h in
    let r =
      complete_failure_tasks p turn.fresh turn.check t.id t.lease_token turn.finished_at
        turn.duration name text retry db {t = u} (unfold locked_task in l) in
    (
      (complete_failure p turn.fresh turn.check t.id t.lease_token turn.finished_at turn.duration
          name text retry db).1,
      failed_with turn.check turn.finished_at name text retry u,
      ground arith,
      rw (r.0) (
          row_after t.id (is_leased t.id t.lease_token)
            (failed_with turn.check turn.finished_at name text retry) db.tasks (λ r. refl) e h),
      ground arith,
      ground arith,
      ground arith,
      ground arith,
    )

-- A cooldown costs no attempt: a claim followed by the deferral under its token leaves the task
-- queued for the deferred time, with the attempts that it had before the claim, and unleased.
pub cooldown_costs_nothing :
    (id token : ℕ) (worker : String) (now lease at retry : ℕ) (message : String) (db : Database)
    (u : Task)
    → find (λ (r : Task). eqb r.id id) db.tasks ≡ some u
    → is_claimable now u ≡ true
    → (w : Task) × (find
          (λ (r : Task). eqb r.id id)
          (defer_rate_limited id
            (some token)
            at
            retry
            message
            (claim_write id token worker now lease db).1).1.tasks
        ≡ some w)
      × (w.status ≡ queued)
      × (w.available_at ≡ retry)
      × (w.attempt_count ≡ u.attempt_count)
      × (w.lease_token ≡ none)
unfolding defer_rate_limited locked_task
cooldown_costs_nothing id token worker now lease at retry message db u e h =
    let key = λ (r : Task). eqb r.id id in
    let wanted = λ (t : Task). eqb t.id id && is_claimable now t in
    let same = find_sound key db.tasks e in
    let f = find_narrow key wanted db.tasks (λ r z. ground arith) e (ground arith) in
    let taken = claimed token worker now lease in
    let e1 = row_after id wanted taken db.tasks (λ r. refl) e (ground arith) in
    let h1 : is_leased id (some token) (taken u) ≡ true = ground arith in
    let f1 =
      find_narrow key (is_leased id (some token)) (update wanted taken db.tasks)
        (λ r z. ground arith) e1 h1 in
    (
      deferred at retry message (taken u),
      rw (claim_write-some id token worker now lease db f) (
          rw (f1, defer_rate_limited)
            (row_after id (is_leased id (some token)) (deferred at retry message)
              (update wanted taken db.tasks) (λ r. refl) e1 h1)),
      refl,
      refl,
      ground arith,
      refl,
    )
