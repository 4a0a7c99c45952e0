-- ===== src/Gates/Memory.antt =====
-- MemoryLookupStore of domainsmanager_lookup/memory_store.py: its dictionary of gates. The lock
-- makes every method one step.
use domains_manager.Base.{
  ℕ, ◌+◌, Bool, true, false, Option, none, some, eqb, ltb, max, if◌then◌else◌, some_and, or_else,
  pair_eq,
}
use domains_manager.Base.Dict.{Dict, get, put}
use domains_manager.Gates.Delay.{endpoint_retry_delay}
use domains_manager.Gates.Calls.{
  Key, Lease, GateState, Call, Reply, acquire, inspect, release, block, renew, leased, state, done,
  blocked, renewed,
}

abbrev pub Item : Type 0
Item = GateState × Option Lease

abbrev pub Gates : Type 0
Gates = Dict Key Item

abbrev pub no_item : Item
no_item = (record { blocked_until = none; lease_until = none; failure_count = 0 }, none)

-- `try_acquire_endpoint_gate` on the item of its key; nothing is written on a refusal.
unfoldable pub try_acquire : Key → ℕ → ℕ → ℕ → Item → Option (Lease × Item)
try_acquire key token now ttl item =
    if some_and item.0.blocked_until (λ until. ltb now until)
    then none
    else if some_and item.1 (λ l. ltb now l.expires_at)
    then none
    else let l : Lease = record { key = key; token = token; expires_at = now + ttl } in
      some (l, (record (item.0) { lease_until = some (now + ttl) }, some l))

-- item is None or item[1] is None or item[1].token != lease.token, the other way round
abbrev pub holds : ℕ → Option Item → Bool
holds token none = false
holds token (some (s, none)) = false
holds token (some (s, some l)) = eqb l.token token

abbrev pub state_of : Option Item → GateState
state_of none = no_item.0
state_of (some (s, l)) = s

abbrev pub released : Bool → GateState → Item
released succeeded s = (
  record {
    blocked_until = if succeeded then none else s.blocked_until;
    lease_until = none;
    failure_count = if succeeded then 0 else s.failure_count;
  },
  none,
)

-- max(now, retry_after if retry_after is not None else now + delay)
abbrev pub blocked_at : ℕ → Option ℕ → ℕ → ℕ → ℕ → ℕ
blocked_at now retry_after base maximum failures =
    max now (or_else retry_after (now + endpoint_retry_delay failures base maximum))

unfoldable pub step : Gates → Call → Reply × Gates
unfolding try_acquire
step g (acquire key owner token now ttl) =
    elim (try_acquire key token now ttl (or_else (get key g) no_item)) [
      | none ↦ (leased none, g)
      | some (l, item) ↦ (leased (some l), put key item g)
    ]
step g (inspect key) = elim (get key g) [
  | none ↦ (state none, g)
  | some item ↦ (state (some (item.0)), g)
]
step g (release lease succeeded now) =
    if holds lease.token (get lease.key g)
    then (done, put lease.key (released succeeded (state_of (get lease.key g))) g)
    else (done, g)
step g (block lease now retry_after base maximum) =
    let s = state_of (get lease.key g) in
    if holds lease.token (get lease.key g)
    then (let failures = s.failure_count + 1 in
        let until = blocked_at now retry_after base maximum failures in
        (
          blocked until,
          put lease.key
              (
                record { blocked_until = some until; lease_until = none; failure_count = failures },
                none,
              )
              g,
        ))
    else (blocked (or_else s.blocked_until now), g)
step g (renew lease now ttl) =
    let s = state_of (get lease.key g) in
    if holds lease.token (get lease.key g)
    then (
      renewed true,
      put lease.key
          (
            record s { lease_until = some (now + ttl) },
            some (record lease { expires_at = now + ttl }),
          )
          g,
    )
    else (renewed false, g)
