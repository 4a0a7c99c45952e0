-- ===== src/Domains/Versions.antt =====
-- What a change of a domain writes.
use domains_manager.Base.{
  ℕ, ◌+◌, Bool, true, false, some, ◌≡◌, arith, inl, inr, String, Option-cases, Bool-cases,
}
use domains_manager.Base.Table.{find, update}
use domains_manager.Base.Result.{
  ok, bind_ok, Result-cases, or_raise, version_conflict, domain_not_found,
}
use domains_manager.Models.{Domain, Database, Task}
use domains_manager.Tasks.Enqueue.{
  add_task, place, merge_into, insert_or_merge, insert_task, add_idempotency, is_active_for,
  active_for_domain, merge_queued_request, get_idempotent, get_task,
}
use domains_manager.Domains.{
  get_domain, is_at_version, edited, Changes, is_null_flag, days, update_local, write_returning,
}
use domains_manager.Domains.Service.{
  DomainService, NewIds, update_domain, refresh_if, enqueue_initial_refresh, starts_watch,
  initial_task, initial_key,
}

add_idempotency-domains :
    (fresh : ℕ) (t : Task) (id : ℕ) (key print : String) (at : ℕ) (db db' : Database)
    → add_idempotency fresh t id key print at db ≡ ok db'
    → db'.domains ≡ db.domains
unfolding add_idempotency
add_idempotency-domains fresh t id key print at db db' h = ground arith

merge_into-domains :
    (fresh : ℕ) (e task : Task) (key print : String) (at : ℕ) (db db' : Database) (t : Task)
    → merge_into fresh e task key print at db ≡ ok (t, db')
    → db'.domains ≡ db.domains
unfolding merge_into
merge_into-domains fresh e task key print at db db' t h =
    let db0 = record db {
      tasks = update (is_active_for task.domain_id) (λ t. merge_queued_request t task) db.tasks;
    } in
    elim (Result-cases (add_idempotency fresh task e.id key print at db0)) [
      | inl (db1, f) ↦
          ground (arith, add_idempotency-domains fresh task e.id key print at db0 db1 f)
      | inr (cause, f) ↦ absurd (ground arith)
    ]

insert_or_merge-domains :
    (fresh : ℕ) (task : Task) (key print : String) (at : ℕ) (db db' : Database) (t : Task)
    → insert_or_merge fresh task key print at db ≡ ok (t, db')
    → db'.domains ≡ db.domains
unfolding insert_or_merge insert_task
insert_or_merge-domains fresh task key print at db db' t h =
    elim (Result-cases (insert_task task db)) [
      | inl (db1, f) ↦
          let same : db1.domains ≡ db.domains = ground arith in
          elim (Result-cases (add_idempotency fresh task task.id key print at db1)) [
            | inl (db2, g) ↦
                ground (arith, add_idempotency-domains fresh task task.id key print at db1 db2 g)
            | inr (cause, g) ↦ absurd (ground arith)
          ]
      | inr (cause, f) ↦ elim (Option-cases (active_for_domain task.domain_id db)) [
        | inl g ↦ absurd (ground arith)
        | inr (e, g) ↦ merge_into-domains fresh e task key print at db db' t (ground arith)
      ]
    ]

place-domains :
    (fresh : ℕ) (task : Task) (key print : String) (at : ℕ) (db db' : Database) (t : Task)
    → place fresh task key print at db ≡ ok (t, db')
    → db'.domains ≡ db.domains
unfolding place
place-domains fresh task key print at db db' t h =
    elim (Option-cases (active_for_domain task.domain_id db)) [
      | inl g ↦ insert_or_merge-domains fresh task key print at db db' t (ground arith)
      | inr (e, g) ↦ merge_into-domains fresh e task key print at db db' t (ground arith)
    ]

-- Queueing a task changes no domain.
pub add_task-domains :
    (fresh : ℕ) (task : Task) (key print : String) (at : ℕ) (db db' : Database) (t : Task)
    → add_task fresh task key print at db ≡ ok (t, db')
    → db'.domains ≡ db.domains
unfolding add_task
add_task-domains fresh task key print at db db' t h =
    elim (Option-cases (get_idempotent task.user_id task.domain_id key db)) [
      | inl e ↦ place-domains fresh task key print at db db' t (ground arith)
      | inr (r, e) ↦ elim (Option-cases (get_task task.user_id r.task_id db)) [
        | inl g ↦ place-domains fresh task key print at db db' t (ground arith)
        | inr (u, g) ↦ ground arith
      ]
    ]

pub refresh_if-domains :
    (b : Bool) (s : DomainService) (x : NewIds) (d : Domain) (now : ℕ) (db db' : Database)
    → refresh_if b s x d now db ≡ ok db'
    → db'.domains ≡ db.domains
unfolding enqueue_initial_refresh
refresh_if-domains false s x d now db db' h = ground arith
refresh_if-domains true s x d now db db' h =
    let ((t, db1), e, k) =
      bind_ok
        (add_task x.idempotency_id (initial_task s x d now) (initial_key s d.id now)
          (s.sha256 "monitor-enabled-initial-refresh") (now + days 1) db)
        _ h in
    ground (
      arith,
      add_task-domains x.idempotency_id (initial_task s x d now) (initial_key s d.id now)
          (s.sha256 "monitor-enabled-initial-refresh") (now + days 1) db db1 t e,
    )

-- What an update that returned wrote.
pub update_domain_writes :
    (s : DomainService) (x : NewIds) (user id version : ℕ) (c : Changes) (now : ℕ)
    (db db' : Database) (d : Domain)
    → update_domain s x user id version c now db ≡ ok (d, db')
    → (old : Domain) × (find (is_at_version user id version) db.domains ≡ some old)
      × (d ≡ edited c now old)
      × (db'.domains ≡ update (is_at_version user id version) (edited c now) db.domains)
unfolding update_domain update_local write_returning
update_domain_writes s x user id version c now db db' d h =
    let (current, e, k) = bind_ok (or_raise (get_domain user id false db) domain_not_found) _ h in
    let ((row, db1), e1, k1) = bind_ok (update_local id user version c now db) _ k in
    let (d1, e2, k2) = bind_ok (or_raise row version_conflict) _ k1 in
    let (db2, e3, k3) = bind_ok (refresh_if (starts_watch c current) s x d1 now db1) _ k2 in
    let kept = refresh_if-domains (starts_watch c current) s x d1 now db1 db2 e3 in
    elim (Option-cases (find (is_at_version user id version) db.domains)) [
      | inl f ↦ absurd (ground arith)
      | inr (old, f) ↦ elim (Bool-cases (is_null_flag c)) [
        | inl g ↦ absurd (ground arith)
        | inr g ↦ (old, f, ground arith, ground arith)
      ]
    ]
