-- ===== src/Gates/Agreement/Acquire.antt =====
-- `try_acquire_endpoint_gate` agrees.
use domains_manager.Base.{
  ℕ, ◌+◌, ◌≡◌, refl, String, true, false, Option, none, some, not, arith, inl, inr, Bool-cases,
  pair_beq, pair_beq_iff, pair_eq,
}
use domains_manager.Base.Dict.{get, put, get-put}
use domains_manager.Gates.Calls.{Key, Lease, acquire, leased}
use domains_manager.Gates.Memory
use domains_manager.Gates.Memory.{Item}
use domains_manager.Gates.Sql
use domains_manager.Gates.Sql.{Row}
use domains_manager.Gates.Attempts.{busy, new_lease, new_item, memory_busy, memory_free}
use domains_manager.Gates.Agreement.Relation.{SameGate, SameGates, put-SameGates, Agrees}

module _ (key : Key) (owner : String) (token now ttl : ℕ) where
  abbrev taken : Row → Row
  taken r = record r {
    lease_token = some token;
    lease_owner = some owner;
    lease_until = some (now + ttl);
    updated_at = now;
  }

  sql_new :
      (s : Sql.Gates)
      → get key s ≡ none
      → Sql.step s (acquire key owner token now ttl) ≡ (
        leased (some (new_lease key owner token now ttl)),
        put key (taken (Sql.new_row now)) (put key (Sql.new_row now) s),
      )
  unfolding Sql.step
  sql_new s e = ground (arith, get-put key key (Sql.new_row now) s, pair_beq_iff key key)

  sql_free :
      (s : Sql.Gates) (r : Row)
      → get key s ≡ some r
      → Sql.is_free now r ≡ true
      → Sql.step s (acquire key owner token now ttl)
        ≡ (leased (some (new_lease key owner token now ttl)), put key (taken r) s)
  unfolding Sql.step
  sql_free s r e h = ground arith

  sql_busy :
      (s : Sql.Gates) (r : Row)
      → get key s ≡ some r
      → Sql.is_free now r ≡ false
      → Sql.step s (acquire key owner token now ttl) ≡ (leased none, s)
  unfolding Sql.step
  sql_busy s r e h = ground arith

acquire_new :
    (key : Key) (owner : String) (token now ttl : ℕ) (m : Memory.Gates) (s : Sql.Gates)
    → get key m ≡ none
    → get key s ≡ none
    → SameGates m s
    → Agrees
        (Memory.step m (acquire key owner token now ttl))
        (Sql.step s (acquire key owner token now ttl))
acquire_new key owner token now ttl m s em es all =
    let l : Lease = record { key = key; token = token; expires_at = now + ttl } in
    let i : Item = (record (Memory.no_item.0) { lease_until = some (now + ttl) }, some l) in
    let r : Row = record (Sql.new_row now) {
      lease_token = some token;
      lease_owner = some owner;
      lease_until = some (now + ttl);
      updated_at = now;
    } in
    rw
      (
        memory_free key owner token now ttl m Memory.no_item (rw em) refl,
        sql_new key owner token now ttl s es,
      )
      (
        refl,
        λ j. elim (Bool-cases (pair_beq key j)) [
          | inl hit ↦
              rw (get-put key j i m, get-put key j r (put key (Sql.new_row now) s), hit)
                (refl, refl, refl, refl, refl)
          | inr miss ↦
              rw
                (
                  get-put key j i m,
                  get-put key j r (put key (Sql.new_row now) s),
                  get-put key j (Sql.new_row now) s,
                  miss,
                )
                (all j)
        ],
      )

free-busy :
    (now : ℕ) (i : Item) (r : Row)
    → SameGate (some i) (some r)
    → Sql.is_free now r ≡ not (busy now i)
free-busy now (st, none) r h = ground arith
free-busy now (st, some l) r h = ground arith

taken_same :
    (key : Key) (owner : String) (token now ttl : ℕ) (i : Item) (r : Row)
    → SameGate (some i) (some r)
    → SameGate (some (new_item key owner token now ttl i)) (some (taken key owner token now ttl r))
taken_same key owner token now ttl (st, none) r h = ground arith
taken_same key owner token now ttl (st, some l) r h = ground arith

acquire_old :
    (key : Key) (owner : String) (token now ttl : ℕ) (m : Memory.Gates) (s : Sql.Gates) (i : Item)
    (r : Row)
    → get key m ≡ some i
    → get key s ≡ some r
    → SameGate (some i) (some r)
    → SameGates m s
    → Agrees
        (Memory.step m (acquire key owner token now ttl))
        (Sql.step s (acquire key owner token now ttl))
acquire_old key owner token now ttl m s i r em es same all =
    let bridge = free-busy now i r same in
    elim (Bool-cases (busy now i)) [
      | inl b ↦
          rw
            (
              memory_busy key owner token now ttl m i (rw em) b,
              sql_busy key owner token now ttl s r es (ground arith),
            )
            (refl, all)
      | inr b ↦
          rw
            (
              memory_free key owner token now ttl m i (rw em) b,
              sql_free key owner token now ttl s r es (ground arith),
            )
            (refl, put-SameGates key _ _ m s (taken_same key owner token now ttl i r same) all)
    ]

pub acquire-Agrees :
    (key : Key) (owner : String) (token now ttl : ℕ) (m : Memory.Gates) (s : Sql.Gates)
    (o : Option Item) (q : Option Row)
    → get key m ≡ o
    → get key s ≡ q
    → SameGate o q
    → SameGates m s
    → Agrees
        (Memory.step m (acquire key owner token now ttl))
        (Sql.step s (acquire key owner token now ttl))
acquire-Agrees key owner token now ttl m s none none em es h all =
    acquire_new key owner token now ttl m s em es all
acquire-Agrees key owner token now ttl m s none (some r) em es h all = absurd h
acquire-Agrees key owner token now ttl m s (some (st, none)) none em es h all = absurd h
acquire-Agrees key owner token now ttl m s (some (st, some l)) none em es h all = absurd h
acquire-Agrees key owner token now ttl m s (some i) (some r) em es h all =
    acquire_old key owner token now ttl m s i r em es h all
