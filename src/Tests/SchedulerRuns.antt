-- ===== src/Tests/SchedulerRuns.antt =====
-- The scheduler at concrete inputs.
use domains_manager.Scheduler.Overdue.{overdue, spread_batches, spread_batches_end}
use domains_manager.Base.{
  min, Mem, ◌⊎◌, ℕ, arith, ◌-◌, ◌≤◌, ◌<◌, ◌≡◌, refl, max, true, some, [], ◌∷◌, All, length,
}
use domains_manager.Base.Result.{ok}
use domains_manager.Base.Table.{select, update, count}
use domains_manager.Models.{Database}
use domains_manager.Tasks.Enqueue.{is_active_for}
use domains_manager.Tasks.Schedule.{advance}
use domains_manager.Scheduler.{
  is_due, due_domains, sort_by, insert_by, claim_row, claim_rows, claim_due, is_overdue, spread_due,
}
use domains_manager.Scheduler.Future.{IsReserved, IsNext}
use domains_manager.Scheduler.Reserved.{claim_due_reserves}
use domains_manager.Scheduler.Spread.{batch, spread_due_bounds}
use domains_manager.Tests.Data.{domain, idle, running_db}

-- The domain was due at 10; at 40, with checks every 7, it is checked next at 45.
abbrev reserved_db : Database
reserved_db = record idle {
  domains = record domain { next_check_at = some 45; updated_at = 40; version = 2 } ∷ [];
}

reserved : claim_due 40 47 100 idle ≡ ok (domain ∷ [], reserved_db)
unfolding claim_due due_domains claim_rows claim_row advance sort_by insert_by select update
reserved = refl

claim_due_reserves_example :
    (length (domain ∷ []) ≤ 100)
    × All (λ r. is_due 40 idle r ≡ true) (domain ∷ [])
    × All (IsReserved 40 (47 - 40) reserved_db) (domain ∷ [])
claim_due_reserves_example = claim_due_reserves 40 47 100 idle reserved_db (domain ∷ []) reserved

spread_due_bounds_example :
    let r = spread_due 200 7000000 100 (λ id upper. 3) running_db in
    (r.0 ≡ min 100 (count (is_overdue 200 running_db) running_db.domains))
    × (length (batch 200 100 running_db) ≡ r.0)
    × All (λ d. is_overdue 200 running_db d ≡ true) (batch 200 100 running_db)
    × All (IsReserved 200 (max 1 7000000) r.1) (batch 200 100 running_db)
    × All (λ z. Mem z running_db.domains ⊎ IsNext 200 (max 1 7000000) z) r.1.domains
    × ((d : ℕ) → count (is_active_for d) r.1.tasks ≡ count (is_active_for d) running_db.tasks)
spread_due_bounds_example = spread_due_bounds 200 7000000 100 (λ id upper. 3) running_db

-- Three batches are enough for the one domain that is due.
one_overdue : overdue 30 idle < 3
unfolding count
one_overdue = omega arith

spread_batches_end_example :
    (r : ℕ × Database) × (spread_batches 3 30 60000000 1 (λ n id upper. 5) 0 idle ≡ some r)
spread_batches_end_example =
    spread_batches_end 30 60000000 1 (λ n id upper. 5) 3 0 idle (omega arith) one_overdue
