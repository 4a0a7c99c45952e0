-- ===== src/Tasks/Single/Defs.antt =====
-- The invariant, and what keeps it.
use domains_manager.Base.{ℕ, ◌≤◌, ◌≡◌, Bool, true, List, arith}
use domains_manager.Base.Table.{update, count, count-update-le}
use domains_manager.Models.{Task, Database, is_active}
use domains_manager.Tasks.Enqueue.{is_active_for}

abbrev pub IsSingle : Database → Type 0
IsSingle db = (d : ℕ) → count (is_active_for d) db.tasks ≤ 1

-- A write that activates no task keeps the tasks single.
pub update-IsSingle :
    (q : Task → Bool) (f : Task → Task) (ts : List Task)
    → ((t : Task) → q t ≡ true → (f t).domain_id ≡ t.domain_id)
    → ((t : Task) → q t ≡ true → is_active (f t).status ≡ true → is_active t.status ≡ true)
    → ((d : ℕ) → count (is_active_for d) ts ≤ 1)
    → (d : ℕ) → count (is_active_for d) (update q f ts) ≤ 1
update-IsSingle q f ts same stays h d = omega (
  arith,
  h d,
  count-update-le (is_active_for d) q f ts (λ t e a. ground (arith, same t e, stays t e)),
)
