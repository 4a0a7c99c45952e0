-- ===== src/Scheduler/Reserved.antt =====
-- What `claim_due` reserves.
use domains_manager.Base.{
  ℕ, ◌-◌, ◌≤◌, ◌≡◌, true, List, [], ◌∷◌, length, length-take-le, All, eqb_refl, or_else, arith, inl,
  inr,
}
use domains_manager.Base.Result.{ok, bind_ok}
use domains_manager.Models.{Domain, Database}
use domains_manager.Scheduler.{is_due, due_domains, claim_row, claim_rows, claim_due}
use domains_manager.Scheduler.Future.{
  IsReserved, IsPresent, All-map, row_found, due_domains_due, due_domains-IsPresent,
}

row-IsPresent :
    (now interval : ℕ) (d : Domain) (db db' : Database)
    → claim_row now interval d db ≡ ok db'
    → or_else d.next_check_at 0 ≤ now
    → (r : Domain) → IsPresent db r
    → IsPresent db' r
row-IsPresent now interval d db db' h due r (y, e) =
    let (z, f, a, b) = row_found now interval d db db' h due r.id e in (z, f)

row-IsReserved :
    (now interval : ℕ) (d : Domain) (db db' : Database)
    → claim_row now interval d db ≡ ok db'
    → or_else d.next_check_at 0 ≤ now
    → (r : Domain) → IsReserved now interval db r
    → IsReserved now interval db' r
row-IsReserved now interval d db db' h due r (y, n, e, k, a, b) =
    let (z, f, same, own) = row_found now interval d db db' h due r.id e in
    elim same [ inl s ↦ (z, n, f, rw s k, a, b) | inr (m, q, u, v) ↦ (z, m, f, q, u, v) ]

rows-IsReserved :
    (now interval : ℕ) (rs : List Domain) (db db' : Database)
    → claim_rows now interval rs db ≡ ok db'
    → All (λ (r : Domain). or_else r.next_check_at 0 ≤ now) rs
    → All (IsPresent db) rs
    → All (IsReserved now interval db') rs
      × ((r : Domain) → IsReserved now interval db r → IsReserved now interval db' r)
unfolding claim_rows
rows-IsReserved now interval [] db db' h due here = (tt, λ r k. ground arith)
rows-IsReserved now interval (d ∷ ds) db db' h (due, dues) ((y, e), there) =
    let (db1, k, h1) = bind_ok (claim_row now interval d db) _ h in
    let (z, f, same, own) = row_found now interval d db db1 k due d.id e in
    let (n, q, u, v) = own (eqb_refl d.id) in
    let (all, keeps) = rows-IsReserved now interval ds db1 db' h1 dues (
      All-map (IsPresent db) (IsPresent db1) ds (row-IsPresent now interval d db db1 k due)
        there) in
    (
      (keeps d (z, n, f, q, u, v), all),
      λ r i. keeps r (row-IsReserved now interval d db db1 k due r i),
    )

-- When `claim_due` ends without an exception, it returns at most `limit` domains, each of which was
-- watched, due at or before `now` and without an active task; and behind it the row of each of them
-- has its next check after `now`, by at most the interval to `due`, so that it is not due again.
pub claim_due_reserves :
    (now due limit : ℕ) (db db' : Database) (rows : List Domain)
    → claim_due now due limit db ≡ ok (rows, db')
    → (length rows ≤ limit)
      × All (λ r. is_due now db r ≡ true) rows
      × All (IsReserved now (due - now) db') rows
unfolding claim_due due_domains
claim_due_reserves now due limit db db' rows h =
    let (db1, k, h1) = bind_ok (claim_rows now (due - now) (due_domains now limit db) db) _ h in
    let (all, keeps) =
      rows-IsReserved now (due - now) (due_domains now limit db) db db1 k
        (All-map _ _ (due_domains now limit db) (λ r e. ground arith)
          (due_domains_due now limit db))
        (due_domains-IsPresent now limit db) in
    let same : rows ≡ due_domains now limit db = ground arith in
    let after : db' ≡ db1 = ground arith in
    rw (same, after) (length-take-le limit _, due_domains_due now limit db, all)
