-- ===== src/Tasks/Schedule/Grid.antt =====
-- The next check lies in the future, within one interval, and on the domain's own grid.
use domains_manager.Base.{ℕ, ◌+◌, ◌-◌, ◌*◌, ◌/◌, ◌≤◌, ◌<◌, ◌≡◌, arith}
use domains_manager.Base.Result.{ok}
use domains_manager.Tasks.Schedule.{advance}

-- For a check that was due at or before `at`, and a positive interval, the next check is after
-- `at` by at most one interval, and a whole number of intervals after the due one.
pub advance_grid :
    (due interval at n : ℕ)
    → due ≤ at
    → advance due interval at ≡ ok n
    → (at < n) × (n ≤ at + interval) × ((k : ℕ) × (n ≡ due + interval * k))
unfolding advance
advance_grid due interval at n h e =
    (grind arith, grind arith, ((at - due) / interval + 1, ground arith))
