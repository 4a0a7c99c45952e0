-- ===== src/Gates/Exclusion.antt =====
-- What the gate promises its clients, of the dictionary and, since the stores agree, of the table.
use domains_manager.Base.{
  ℕ, ◌+◌, ◌<◌, ◌≡◌, ◌≢◌, refl, sym, ap, ◌∙◌, String, Bool, true, false, Option, none, some, arith,
  inl, inr, Bool-cases, or_else, pair_eq,
}
use domains_manager.Base.Dict.{get, put, get-put_self}
use domains_manager.Gates.Calls.{
  Key, Lease, acquire, release, block, renew, leased, blocked, renewed,
}
use domains_manager.Gates.Attempts.{busy, new_item, memory_busy, memory_free}
use domains_manager.Gates.Memory.{no_item, state_of, blocked_at, Gates, Item, step, holds}

refused : (l : Lease) → leased none ≢ leased (some l)
refused l e = ground arith

-- After a request got the lease of a gate, no request gets it before the lease ends.
pub gate_exclusive :
    (g : Gates) (key : Key) (owner owner' : String) (token token' now now' ttl ttl' : ℕ) (l : Lease)
    → (step g (acquire key owner token now ttl)).0 ≡ leased (some l)
    → now' < now + ttl
    → step (step g (acquire key owner token now ttl)).1 (acquire key owner' token' now' ttl')
      ≡ (leased none, (step g (acquire key owner token now ttl)).1)
gate_exclusive g key owner owner' token token' now now' ttl ttl' l e h =
    let item = or_else (get key g) no_item in
    elim (Bool-cases (busy now item)) [
      | inl b ↦
          absurd (
            refused l (sym (ap (λ r. r.0) (memory_busy key owner token now ttl g item refl b)) ∙ e))
      | inr b ↦
          let written = new_item key owner token now ttl item in
          rw (memory_free key owner token now ttl g item refl b) (
            memory_busy key owner' token' now' ttl' (put key written g) written
              (rw (get-put_self key written g) refl) (ground arith))
    ]

-- While a gate is blocked no request gets it.
pub gate_blocked :
    (g : Gates) (lease : Lease) (now : ℕ) (retry_after : Option ℕ) (base maximum until : ℕ)
    (owner : String) (token now' ttl : ℕ)
    → holds lease.token (get lease.key g) ≡ true
    → (step g (block lease now retry_after base maximum)).0 ≡ blocked until
    → now' < until
    → let g' = (step g (block lease now retry_after base maximum)).1 in
      step g' (acquire lease.key owner token now' ttl) ≡ (leased none, g')
unfolding step
gate_blocked g lease now retry_after base maximum until owner token now' ttl h e early =
    let s = state_of (get lease.key g) in
    let failures = s.failure_count + 1 in
    let at = blocked_at now retry_after base maximum failures in
    let i : Item =
      (record { blocked_until = some at; lease_until = none; failure_count = failures }, none) in
    let k : step g (block lease now retry_after base maximum) ≡ (blocked at, put lease.key i g) =
      rw (h, step) refl in
    let u : at ≡ until = ground arith in
    rw k (
      memory_busy lease.key owner token now' ttl (put lease.key i g) i
        (rw (get-put_self lease.key i g) refl) (ground arith))

-- A lease whose token the gate does not hold has no effect: a release, a block and a renewal leave
-- the store as it is, and the renewal reports it.
pub stale_gate_lease :
    (g : Gates) (lease : Lease) (succeeded : Bool) (now ttl : ℕ) (retry_after : Option ℕ)
    (base maximum : ℕ)
    → holds lease.token (get lease.key g) ≡ false
    → ((step g (release lease succeeded now)).1 ≡ g)
      × ((step g (block lease now retry_after base maximum)).1 ≡ g)
      × (step g (renew lease now ttl) ≡ (renewed false, g))
unfolding step
stale_gate_lease g lease succeeded now ttl retry_after base maximum h =
    (rw (h, step), rw (h, step), rw (h, step))
