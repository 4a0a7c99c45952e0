-- ===== src/Tasks/Complete/Citing.antt =====
-- The test for fresh data closes a task citing the last successful check that is recent enough.
use domains_manager.Base.{
  ℕ, ◌≤◌, ◌≡◌, refl, subst, ◌⊎◌, String, Bool, true, false, ◌&&◌, ◌||◌, Option, none, some, List,
  [], ◌∷◌, inl, inr, arith, Option-cases, Bool-cases, any, ltb, leb, eqb, Mem, mem-cons_self,
  mem-cons_of_mem,
}
use domains_manager.Base.Result.{ok}
use domains_manager.Base.Table.{find, update, find-update-none}
use domains_manager.Models.{Task, Check, Database, info, prefix}
use domains_manager.Tasks.Leases.{locked_task, is_leased}
use domains_manager.Tasks.Snapshots.{newest, newer, is_success}
use domains_manager.Tasks.Complete.{complete_if_fresh, kept_fresh}
use domains_manager.Tasks.Complete.Effects.{complete_if_fresh_rows}

-- What the scan returns is a row with the condition, and no row with it was checked later.
none_newer_mono :
    (p : Check → Bool) (cs : List Check) (a b : ℕ)
    → a ≤ b
    → any (λ u. p u && ltb a u.checked_at) cs ≡ false
    → any (λ u. p u && ltb b u.checked_at) cs ≡ false
none_newer_mono p [] a b h e = refl
none_newer_mono p (u ∷ cs) a b h e = ground (arith, none_newer_mono p cs a b)

newest-none :
    (p : Check → Bool) (at : ℕ) (cs : List Check)
    → newest p cs ≡ none
    → any (λ u. p u && ltb at u.checked_at) cs ≡ false
unfolding newest
newest-none p at [] e = refl
newest-none p at (u ∷ cs) e = ground (arith, newest-none p at cs)

abbrev newer_test : Check → Check → Bool
newer_test c d = ltb d.checked_at c.checked_at || (eqb d.checked_at c.checked_at && ltb d.id c.id)

newest_lem :
    (p : Check → Bool) (cs : List Check) {c : Check}
    → newest p cs ≡ some c
    → (p c ≡ true) × (any (λ u. p u && ltb c.checked_at u.checked_at) cs ≡ false) × Mem c cs
unfolding newest newer
newest_lem p [] e = absurd (ground arith)
newest_lem p (u ∷ cs) {c} e = elim (Option-cases (newest p cs)) [
  | inl f ↦
      let same : u ≡ c = ground arith in
      (
        ground arith,
        ground (arith, newest-none p c.checked_at cs f),
        subst (λ (x : Check). Mem x (u ∷ cs)) same mem-cons_self,
      )
  | inr (y, f) ↦
      let (a, b, m) = newest_lem p cs f in
      elim (Bool-cases (p u && newer_test u y)) [
        | inl g ↦
            let same : u ≡ c = ground arith in
            (
              ground arith,
              ground (arith, none_newer_mono p cs y.checked_at u.checked_at),
              subst (λ (x : Check). Mem x (u ∷ cs)) same mem-cons_self,
            )
        | inr g ↦
            let same : y ≡ c = ground arith in
            (
              ground arith,
              ground arith,
              subst (λ (x : Check). Mem x (u ∷ cs)) same (mem-cons_of_mem u m),
            )
      ]
]

abbrev pub is_recent : ℕ → ℕ → Check → Bool
is_recent domain fresh_after c = is_success domain c && leb fresh_after c.checked_at

-- A task that is closed as fresh: what it says, and that nobody has it.
abbrev pub IsClosedFresh : ℕ → String → ℕ → ℕ → Task → Task → Type 0
IsClosedFresh source message until at before after =
    (after.id ≡ before.id)
    × (after.status ≡ info)
    × (after.source_check_id ≡ some source)
    × (after.check_id ≡ none)
    × (after.error_code ≡ none)
    × (after.result_code ≡ some "data_fresh")
    × (after.result_message ≡ some (prefix 512 message))
    × (after.fresh_until ≡ some until)
    × (after.completed_at ≡ some at)
    × (after.lease_token ≡ none)
    × (after.lease_until ≡ none)
    × (after.attempt_count ≡ before.attempt_count)

-- When the test for fresh data ends without an exception, either it returns false and nothing
-- happened, or it returns true and the following holds. A task held the lease, and no task holds it
-- any more: each task that held it is now closed with the result "data_fresh" and without a lease,
-- citing a successful check with a snapshot of its domain, which is in the table, is recent enough,
-- and is such that no other of these was made later. The other tasks and the checks are as they were.
pub complete_if_fresh_tasks :
    (id : ℕ) (token : Option ℕ) (at fresh_after until next : ℕ) (message : String) (db : Database)
    {b : Bool} {db' : Database}
    → complete_if_fresh id token at fresh_after until next message db ≡ ok (b, db')
    → ((b ≡ false) × (db' ≡ db))
      ⊎ ((b ≡ true)
          × (t : Task) × (c : Check) × (closed : Task → Task) × (find (is_leased id token) db.tasks
              ≡ some t)
          × Mem c db.checks
          × (is_recent t.domain_id fresh_after c ≡ true)
          × (any
                (λ u. is_recent t.domain_id fresh_after u && ltb c.checked_at u.checked_at)
                db.checks
              ≡ false)
          × (db'.tasks ≡ update (is_leased id token) closed db.tasks)
          × ((u : Task) → IsClosedFresh c.id message until at u (closed u))
          × (find (is_leased id token) db'.tasks ≡ none)
          × (db'.checks ≡ db.checks))
unfolding locked_task
complete_if_fresh_tasks id token at fresh_after until next message db h =
    elim (complete_if_fresh_rows id token at fresh_after until next message db h) [
      | inl r ↦ inl r
      | inr (b, t, c, e, f, written, checks) ↦
          let (recent, none_later, there) =
            newest_lem (is_recent t.domain_id fresh_after) db.checks f in
          let closed = kept_fresh c.id message until at in
          inr (
            b,
            t,
            c,
            closed,
            e,
            there,
            recent,
            none_later,
            written,
            (λ u. (refl, refl, refl, refl, refl, refl, refl, refl, refl, refl, refl, refl)),
            rw (written)
                (find-update-none (is_leased id token) closed db.tasks (λ u q. ground arith)),
            checks,
          )
    ]
