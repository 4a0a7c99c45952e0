-- ===== src/Gates/Agreement/Holders.antt =====
-- What the holder of a lease does, and the inspection of a gate, agree.
use domains_manager.Base.{
  ℕ, ◌≡◌, refl, Bool, true, false, Option, none, some, arith, inl, inr, Bool-cases, pair_eq,
}
use domains_manager.Base.Dict.{get}
use domains_manager.Gates.Calls.{Key, Lease, inspect, release, block, renew}
use domains_manager.Gates.Memory
use domains_manager.Gates.Memory.{Item}
use domains_manager.Gates.Sql
use domains_manager.Gates.Sql.{Row}
use domains_manager.Gates.Agreement.Relation.{SameGate, SameGates, put-SameGates, Agrees}

-- Who holds the gate, and what a release, a block or a renewal leaves, agree.
holds-same :
    (token : ℕ) (o : Option Item) (q : Option Row)
    → SameGate o q
    → Sql.holds token q ≡ Memory.holds token o
holds-same token none none h = refl
holds-same token none (some r) h = absurd h
holds-same token (some (st, none)) (some r) h = ground arith
holds-same token (some (st, some l)) (some r) h = ground arith
holds-same token (some (st, none)) none h = absurd h
holds-same token (some (st, some l)) none h = absurd h

state-same :
    (now : ℕ) (o : Option Item) (q : Option Row)
    → SameGate o q
    → ((Sql.row_of now q).blocked_until ≡ (Memory.state_of o).blocked_until)
      × ((Sql.row_of now q).failure_count ≡ (Memory.state_of o).failure_count)
state-same now none none h = (refl, refl)
state-same now none (some r) h = absurd h
state-same now (some (st, none)) (some r) h = ground arith
state-same now (some (st, some l)) (some r) h = ground arith
state-same now (some (st, none)) none h = absurd h
state-same now (some (st, some l)) none h = absurd h

inspect_old :
    (key : Key) (m : Memory.Gates) (s : Sql.Gates) (o : Option Item) (q : Option Row)
    → get key m ≡ o
    → get key s ≡ q
    → SameGate o q
    → (Memory.step m (inspect key)).0 ≡ (Sql.step s (inspect key)).0
unfolding Memory.step Sql.step
inspect_old key m s none none em es h = ground arith
inspect_old key m s none (some r) em es h = absurd h
inspect_old key m s (some (st, none)) (some r) em es h = ground arith
inspect_old key m s (some (st, some l)) (some r) em es h = ground arith
inspect_old key m s (some (st, none)) none em es h = absurd h
inspect_old key m s (some (st, some l)) none em es h = absurd h

token_of_holds :
    (token now : ℕ) (q : Option Row)
    → Sql.holds token q ≡ true
    → (Sql.row_of now q).lease_token ≡ some token
token_of_holds token now none h = ground arith
token_of_holds token now (some r) h = ground arith

pub release-Agrees :
    (lease : Lease) (succeeded : Bool) (now : ℕ) (m : Memory.Gates) (s : Sql.Gates)
    → SameGates m s
    → Agrees
        (Memory.step m (release lease succeeded now))
        (Sql.step s (release lease succeeded now))
unfolding Memory.step Sql.step
release-Agrees lease succeeded now m s all =
    let h = holds-same lease.token (get lease.key m) (get lease.key s) (all lease.key) in
    let st = state-same now (get lease.key m) (get lease.key s) (all lease.key) in
    elim (Bool-cases (Memory.holds lease.token (get lease.key m))) [
      | inl b ↦
          let c : Sql.holds lease.token (get lease.key s) ≡ true = ground arith in
          rw (b, c, Memory.step, Sql.step)
            (refl, put-SameGates lease.key _ _ m s (ground arith) all)
      | inr b ↦
          let c : Sql.holds lease.token (get lease.key s) ≡ false = ground arith in
          rw (b, c, Memory.step, Sql.step) (refl, all)
    ]

pub block-Agrees :
    (lease : Lease) (now : ℕ) (retry_after : Option ℕ) (base maximum : ℕ) (m : Memory.Gates)
    (s : Sql.Gates)
    → SameGates m s
    → Agrees
        (Memory.step m (block lease now retry_after base maximum))
        (Sql.step s (block lease now retry_after base maximum))
unfolding Memory.step Sql.step
block-Agrees lease now retry_after base maximum m s all =
    let h = holds-same lease.token (get lease.key m) (get lease.key s) (all lease.key) in
    let st = state-same now (get lease.key m) (get lease.key s) (all lease.key) in
    elim (Bool-cases (Memory.holds lease.token (get lease.key m))) [
      | inl b ↦
          let c : Sql.holds lease.token (get lease.key s) ≡ true = ground arith in
          rw (b, c, Memory.step, Sql.step)
            (ground arith, put-SameGates lease.key _ _ m s (ground arith) all)
      | inr b ↦
          let c : Sql.holds lease.token (get lease.key s) ≡ false = ground arith in
          rw (b, c, Memory.step, Sql.step) (ground arith, all)
    ]

pub renew-Agrees :
    (lease : Lease) (now ttl : ℕ) (m : Memory.Gates) (s : Sql.Gates)
    → SameGates m s
    → Agrees (Memory.step m (renew lease now ttl)) (Sql.step s (renew lease now ttl))
unfolding Memory.step Sql.step
renew-Agrees lease now ttl m s all =
    let h = holds-same lease.token (get lease.key m) (get lease.key s) (all lease.key) in
    let st = state-same now (get lease.key m) (get lease.key s) (all lease.key) in
    elim (Bool-cases (Memory.holds lease.token (get lease.key m))) [
      | inl b ↦
          let c : Sql.holds lease.token (get lease.key s) ≡ true = ground arith in
          rw (b, c, Memory.step, Sql.step)
            (
              refl,
              put-SameGates lease.key _ _ m s
                  (ground (arith, token_of_holds lease.token now (get lease.key s))) all,
            )
      | inr b ↦
          let c : Sql.holds lease.token (get lease.key s) ≡ false = ground arith in
          rw (b, c, Memory.step, Sql.step) (refl, all)
    ]

memory_inspect : (key : Key) (m : Memory.Gates) → (Memory.step m (inspect key)).1 ≡ m
unfolding Memory.step
memory_inspect key m = ground arith

sql_inspect : (key : Key) (s : Sql.Gates) → (Sql.step s (inspect key)).1 ≡ s
unfolding Sql.step
sql_inspect key s = ground arith

pub inspect-Agrees :
    (key : Key) (m : Memory.Gates) (s : Sql.Gates)
    → SameGates m s
    → Agrees (Memory.step m (inspect key)) (Sql.step s (inspect key))
inspect-Agrees key m s all = (
  inspect_old key m s _ _ refl refl (all key),
  λ j. rw (memory_inspect key m, sql_inspect key s) (all j),
)
