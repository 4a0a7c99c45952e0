-- ===== src/Tasks/Fencing.antt =====
-- A worker whose lease was taken over can no longer write: every method that takes a lease token
-- refuses a token that the task does not hold.
use domains_manager.Base.{
  ℕ, ◌≤◌, ◌<◌, ◌≡◌, ◌≢◌, String, false, ◌&&◌, Option, none, some, eqb, inl, inr, arith,
  Option-cases,
}
use domains_manager.Base.Result.{ok}
use domains_manager.Base.Table.{find, find-update_unique, update, count}
use domains_manager.Models.{Task, Database, Snapshot}
use domains_manager.Tasks.Leases.{
  is_claimable, is_leased, claimed, claim_write, locked_task, heartbeat, defer_rate_limited,
}
use domains_manager.Tasks.Snapshots.{Platform}
use domains_manager.Tasks.Notices.{Fresh}
use domains_manager.Tasks.Complete.{complete_success, complete_if_fresh, complete_failure}

-- The primary key.
abbrev pub HasUniqueIds : Database → Type 0
HasUniqueIds db = (id : ℕ) → count (λ (t : Task). eqb t.id id) db.tasks ≤ 1

pub claim_write-some :
    (id token : ℕ) (worker : String) (now until : ℕ) (db : Database) {x : Task}
    → find (λ (t : Task). eqb t.id id && is_claimable now t) db.tasks ≡ some x
    → claim_write id token worker now until db ≡ (
      some (claimed token worker now until x),
      record db {
        tasks =
            update
              (λ (t : Task). eqb t.id id && is_claimable now t)
              (claimed token worker now until)
              db.tasks;
      },
    )
unfolding claim_write
claim_write-some id token worker now until db e = rw (e, claim_write)

pub claim_write-none :
    (id token : ℕ) (worker : String) (now until : ℕ) (db : Database)
    → find (λ (t : Task). eqb t.id id && is_claimable now t) db.tasks ≡ none
    → claim_write id token worker now until db ≡ (none, db)
unfolding claim_write
claim_write-none id token worker now until db e = rw (e, claim_write)

-- After another worker's claim the old lease is on no row.
pub locked_task-claim_write :
    (id old token : ℕ) (worker : String) (now until : ℕ) (db : Database) {t : Task}
    → HasUniqueIds db
    → token ≢ old
    → (claim_write id token worker now until db).0 ≡ some t
    → locked_task id (some old) (claim_write id token worker now until db).1 ≡ none
unfolding claim_write locked_task
locked_task-claim_write id old token worker now until db u ne e =
    let wanted = λ (t : Task). eqb t.id id && is_claimable now t in
    elim (Option-cases (find wanted db.tasks)) [
      | inl f ↦ absurd (ground arith)
      | inr (t, f) ↦
          rw (f, claim_write)
            (find-update_unique (λ (t : Task). eqb t.id id) wanted (is_leased id (some old))
              (claimed token worker now until) db.tasks {x = t} (λ y h. ground arith)
              (λ y h. ground arith) (λ y k. ground arith) (u id) f)
    ]

-- What the five methods do when the lease is not there.
refused_all :
    (p : Platform) (fresh : Fresh) (check id : ℕ) (token : Option ℕ) (at duration : ℕ)
    (s : Snapshot) (next until fresh_after retry : ℕ) (retry_at : Option ℕ) (code message : String)
    (db : Database)
    → locked_task id token db ≡ none
    → (heartbeat id token until at db ≡ (false, db))
      × (defer_rate_limited id token at retry message db ≡ (false, db))
      × (complete_success p fresh check id token at duration s next db ≡ ok (none, db))
      × (complete_if_fresh id token at fresh_after until next message db ≡ ok (false, db))
      × (complete_failure p fresh check id token at duration code message retry_at db ≡ (none, db))
unfolding heartbeat defer_rate_limited complete_success complete_if_fresh complete_failure
refused_all p fresh check id token at duration s next until fresh_after retry retry_at code message
      db e =
    (
      rw (e, heartbeat),
      rw (e, defer_rate_limited),
      rw (e, complete_success),
      rw (e, complete_if_fresh),
      rw (e, complete_failure),
    )

-- Where task identifiers are unique, after a claim took a task over with a new token, the methods
-- called with the old token all report failure and leave the database as it is: the heartbeat, the
-- deferral, and the three completions.
pub stale_lease_refused :
    (p : Platform) (fresh : Fresh) (check id old token : ℕ) (worker : String) (now lease : ℕ)
    (at duration : ℕ) (s : Snapshot) (next until fresh_after retry : ℕ) (retry_at : Option ℕ)
    (code message : String) (db : Database) (t : Task)
    → HasUniqueIds db
    → token ≢ old
    → (claim_write id token worker now lease db).0 ≡ some t
    → let db' = (claim_write id token worker now lease db).1 in
      (heartbeat id (some old) until at db' ≡ (false, db'))
      × (defer_rate_limited id (some old) at retry message db' ≡ (false, db'))
      × (complete_success p fresh check id (some old) at duration s next db' ≡ ok (none, db'))
      × (complete_if_fresh id (some old) at fresh_after until next message db' ≡ ok (false, db'))
      × (complete_failure p fresh check id (some old) at duration code message retry_at db'
          ≡ (none, db'))
stale_lease_refused p fresh check id old token worker now lease at duration s next until fresh_after
      retry retry_at code message db t u ne e =
    refused_all p fresh check id (some old) at duration s next until fresh_after retry retry_at code
      message _ (locked_task-claim_write id old token worker now lease db u ne e)

-- Two workers read the same candidate. Where task identifiers are unique, once one of them has
-- written its lease, the other's conditional write fails at every time before that lease ends.
pub claim_race :
    (id token token' : ℕ) (worker worker' : String) (now now' lease lease' : ℕ) (db : Database)
    (t : Task)
    → HasUniqueIds db
    → (claim_write id token worker now lease db).0 ≡ some t
    → now' < lease
    → let db' = (claim_write id token worker now lease db).1 in
      claim_write id token' worker' now' lease' db' ≡ (none, db')
claim_race id token token' worker worker' now now' lease lease' db t u e early =
    let wanted = λ (t : Task). eqb t.id id && is_claimable now t in
    let wanted' = λ (t : Task). eqb t.id id && is_claimable now' t in
    elim (Option-cases (find wanted db.tasks)) [
      | inl f ↦ absurd (ground (arith, claim_write-none id token worker now lease db f))
      | inr (x, f) ↦ rw (claim_write-some id token worker now lease db f) (
          claim_write-none id token' worker' now' lease' _ (
            find-update_unique (λ (t : Task). eqb t.id id) wanted wanted'
              (claimed token worker now lease) db.tasks {x = x} (λ y h. ground arith)
              (λ y h. ground arith) (λ y k. ground arith) (u id) f))
    ]
