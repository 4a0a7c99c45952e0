-- ===== src/Tasks/Schedule.antt =====
-- The next check of a domain: the arithmetic that `complete_success`, `complete_if_fresh` and the
-- scheduler's `claim_due` share. It skips the missed checks and stays on the domain's own grid.
pub mod Grid
use domains_manager.Base.{ℕ, ◌+◌, ◌-◌, ◌*◌, ◌/◌, none, some, eqb, leb, if◌then◌else◌}
use domains_manager.Base.Result.{Result, ok, err, zero_division, ◌>>=◌}
use domains_manager.Models.{Domain, Origin, is_scheduled}

-- due_at + interval * ((at - due_at) // interval + 1), where due_at <= at
unfoldable pub advance : ℕ → ℕ → ℕ → Result ℕ
advance due interval at =
    if eqb interval 0 then err zero_division else ok (due + interval * ((at - due) / interval + 1))

abbrev pub with_next : Domain → ℕ → Domain
with_next d at = record d { next_check_at = some at }

-- The `if due_at <= at` of both completions. `next` is not before `at`: `run_once` adds an interval to it.
unfoldable pub advance_due : ℕ → ℕ → ℕ → Domain → Result Domain
advance_due due at next d =
    if leb due at then (do n ← advance due (next - at) at; ok (with_next d n)) else ok d

-- The choice of `next_check_at` in `complete_success`.
unfoldable pub reschedule : Origin → ℕ → ℕ → Domain → Result Domain
reschedule origin at next d =
    if is_scheduled origin
    then elim d.next_check_at [
      | none ↦ ok (with_next d next)
      | some due ↦ advance_due due at next d
    ]
    else ok (with_next d next)
