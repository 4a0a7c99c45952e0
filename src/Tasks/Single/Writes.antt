-- ===== src/Tasks/Single/Writes.antt =====
-- Claiming, renewing, handing back and completing keep the active tasks single.
use domains_manager.Base.{
  ℕ, ◌≤◌, ◌≡◌, refl, String, Bool, ◌&&◌, Option, List, eqb, inl, inr, arith, Option-cases,
}
use domains_manager.Base.Result.{ok}
use domains_manager.Base.Table.{find, update, count}
use domains_manager.Models.{Task, Database, Snapshot, Check}
use domains_manager.Tasks.Leases.{
  is_claimable, is_leased, claimed, claim_candidate, claim_write, claim, locked_task, heartbeat,
  renewed, defer_rate_limited, deferred,
}
use domains_manager.Tasks.Snapshots.{Platform}
use domains_manager.Tasks.Notices.{Fresh}
use domains_manager.Tasks.Complete.{
  complete_success, complete_if_fresh, complete_failure, succeeded, kept_fresh, failed_with,
}
use domains_manager.Tasks.Complete.Effects.{
  complete_success_tasks, complete_success-none, complete_if_fresh_rows, complete_failure_tasks,
}
use domains_manager.Tasks.Enqueue.{is_active_for}
use domains_manager.Tasks.Single.Defs.{IsSingle, update-IsSingle}

pub claim_write-IsSingle :
    (id token : ℕ) (worker : String) (now until : ℕ) (db : Database)
    → IsSingle db
    → IsSingle (claim_write id token worker now until db).1
unfolding claim_write
claim_write-IsSingle id token worker now until db h =
    elim (Option-cases (find (λ (t : Task). eqb t.id id && is_claimable now t) db.tasks)) [
      | inl e ↦ rw (e, claim_write) h
      | inr (t, e) ↦
          rw (e, claim_write)
            (update-IsSingle _ (claimed token worker now until) db.tasks (λ t e. refl)
              (λ t e a. ground arith) h)
    ]

pub claim-IsSingle :
    (token : ℕ) (worker : String) (now until : ℕ) (db : Database)
    → IsSingle db
    → IsSingle (claim token worker now until db).1
unfolding claim
claim-IsSingle token worker now until db h = elim (Option-cases (claim_candidate now db)) [
  | inl e ↦ rw (e, claim) h
  | inr (t, e) ↦ rw (e, claim) (claim_write-IsSingle t.id token worker now until db h)
]

-- A leased row is active, so writing it cannot make its domain busier.
pub write_task-IsSingle :
    (id : ℕ) (token : Option ℕ) (f : Task → Task) (ts : List Task)
    → ((t : Task) → (f t).domain_id ≡ t.domain_id)
    → ((d : ℕ) → count (is_active_for d) ts ≤ 1)
    → (d : ℕ) → count (is_active_for d) (update (is_leased id token) f ts) ≤ 1
write_task-IsSingle id token f ts same =
    update-IsSingle (is_leased id token) f ts (λ t e. same t) (λ t e a. ground arith)

pub heartbeat-IsSingle :
    (id : ℕ) (token : Option ℕ) (until at : ℕ) (db : Database)
    → IsSingle db
    → IsSingle (heartbeat id token until at db).1
unfolding heartbeat
heartbeat-IsSingle id token until at db h = elim (Option-cases (locked_task id token db)) [
  | inl e ↦ rw (e, heartbeat) h
  | inr (t, e) ↦
      rw (e, heartbeat) (write_task-IsSingle id token (renewed until at) db.tasks (λ t. refl) h)
]

pub defer-IsSingle :
    (id : ℕ) (token : Option ℕ) (at retry_at : ℕ) (message : String) (db : Database)
    → IsSingle db
    → IsSingle (defer_rate_limited id token at retry_at message db).1
unfolding defer_rate_limited
defer-IsSingle id token at retry_at message db h = elim (Option-cases (locked_task id token db)) [
  | inl e ↦ rw (e, defer_rate_limited) h
  | inr (t, e) ↦
      rw (e, defer_rate_limited)
        (write_task-IsSingle id token (deferred at retry_at message) db.tasks (λ t. refl) h)
]

pub complete_success-IsSingle :
    (p : Platform) (fresh : Fresh) (check id : ℕ) (token : Option ℕ) (at duration : ℕ)
    (s : Snapshot) (next : ℕ) (db : Database) {o : Option Check} {db' : Database}
    → complete_success p fresh check id token at duration s next db ≡ ok (o, db')
    → IsSingle db
    → IsSingle db'
complete_success-IsSingle p fresh check id token at duration s next db {o} {db'} e h =
    elim (Option-cases (locked_task id token db)) [
      | inl l ↦
          let same : db' ≡ db =
            ground (arith, complete_success-none p fresh check id token at duration s next db l) in
          rw same h
      | inr (t, l) ↦ λ d.
          rw ((complete_success_tasks p fresh check id token at duration s next db l e).0)
            (write_task-IsSingle id token (succeeded check at) db.tasks (λ t. refl) h d)
    ]

pub complete_if_fresh-IsSingle :
    (id : ℕ) (token : Option ℕ) (at fresh_after until next : ℕ) (message : String) (db : Database)
    {b : Bool} {db' : Database}
    → complete_if_fresh id token at fresh_after until next message db ≡ ok (b, db')
    → IsSingle db
    → IsSingle db'
complete_if_fresh-IsSingle id token at fresh_after until next message db e h =
    elim (complete_if_fresh_rows id token at fresh_after until next message db e) [
      | inl (_, same) ↦ rw same h
      | inr (_, t, c, _, _, tasks, _) ↦ λ d.
          rw tasks (
            write_task-IsSingle id token (kept_fresh c.id message until at) db.tasks (λ t. refl) h
              d)
    ]

pub complete_failure-IsSingle :
    (p : Platform) (fresh : Fresh) (check id : ℕ) (token : Option ℕ) (at duration : ℕ)
    (code message : String) (retry : Option ℕ) (db : Database)
    → IsSingle db
    → IsSingle (complete_failure p fresh check id token at duration code message retry db).1
complete_failure-IsSingle p fresh check id token at duration code message retry db h =
    elim (Option-cases (locked_task id token db)) [
      | inl l ↦ unfold complete_failure in rw (l, complete_failure) h
      | inr (t, l) ↦ λ d.
          rw ((complete_failure_tasks p fresh check id token at duration code message retry db l).0)
            (write_task-IsSingle id token (failed_with check at code message retry) db.tasks
              (λ t. refl) h d)
    ]
