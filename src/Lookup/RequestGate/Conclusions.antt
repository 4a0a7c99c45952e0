-- ===== src/Lookup/RequestGate/Conclusions.antt =====
-- What a request leaves behind in the gate that it holds.
use domains_manager.Base.{
  ℕ, ◌+◌, ◌≤◌, ◌≡◌, refl, Bool, true, false, Option, none, some, arith, or_else, pair_eq,
}
use domains_manager.Base.Dict.{get, put, get-put_self}
use domains_manager.Gates.Calls.{Key, Lease, GateState, release, block, done, blocked}
use domains_manager.Gates.Memory
use domains_manager.Gates.Memory.{Item, no_item, holds, state_of, released, blocked_at}
use domains_manager.Lookup.{upstream_limited}
use domains_manager.Lookup.Effects.{Completion, returned, raised, Action, ◌>>=◌, settle, next_of}
use domains_manager.Lookup.RequestGate.{
  EndpointRequestGate, World, gate_store, beside, concluded, request,
}

-- From the end of the request, and the state of its gate then: what `run` ends in, and the gate
-- behind it. A result opens the gate, a limit of the endpoint blocks it, and any other exception
-- gives the lease back.
abbrev pub IsConclusion :
    {T : Type 0} → Key → ℕ → GateState → Completion T → Completion T → Option Item → Type 0
IsConclusion key now s (returned x) r item = (r ≡ returned x) × (item ≡ some no_item)
IsConclusion key now s (raised (upstream_limited protocol endpoint until)) r item =
    (b : ℕ) × (r ≡ raised (upstream_limited (key.0) (key.1) (some b)))
    × (now ≤ b)
    × (or_else until 0 ≤ b)
    × (item
        ≡ some (
          record {
            blocked_until = some b;
            lease_until = none;
            failure_count = s.failure_count + 1;
          },
          none,
        ))
IsConclusion key now s (raised e) r item =
    (r ≡ raised e) × (item ≡ some (record s { lease_until = none }, none))

release_lem :
    (gates : Memory.Gates) (lease : Lease) (succeeded : Bool) (now : ℕ)
    → holds lease.token (get lease.key gates) ≡ true
    → Memory.step gates (release lease succeeded now)
      ≡ (done, put lease.key (released succeeded (state_of (get lease.key gates))) gates)
unfolding Memory.step
release_lem gates lease succeeded now h = rw (h, Memory.step)

module _ (gates : Memory.Gates) (lease : Lease) (now : ℕ) (until : Option ℕ)
    (base maximum : ℕ) where
  abbrev failures : ℕ
  failures = (state_of (get lease.key gates)).failure_count + 1

  block_lem :
      holds lease.token (get lease.key gates) ≡ true
      → Memory.step gates (block lease now until base maximum) ≡ (
        blocked (blocked_at now until base maximum failures),
        put lease.key
            (
              record {
                blocked_until = some (blocked_at now until base maximum failures);
                lease_until = none;
                failure_count = failures;
              },
              none,
            )
            gates,
      )
  unfolding Memory.step
  block_lem h = rw (h, Memory.step)

blocked_at_bounds :
    (now : ℕ) (until : Option ℕ) (base maximum failures : ℕ)
    → (now ≤ blocked_at now until base maximum failures)
      × (or_else until 0 ≤ blocked_at now until base maximum failures)
blocked_at_bounds now none base maximum failures = omega arith
blocked_at_bounds now (some t) base maximum failures = omega arith

given_back :
    (gates : Memory.Gates) (lease : Lease) (now : ℕ)
    → holds lease.token (get lease.key gates) ≡ true
    → get lease.key (Memory.step gates (release lease false now)).1
      ≡ some (record (state_of (get lease.key gates)) { lease_until = none }, none)
given_back gates lease now held =
    rw (release_lem gates lease false now held) (get-put_self lease.key _ gates)

module _ {E T : Type 0} (g : EndpointRequestGate) (lease : Lease) (w : World E)
    (held : holds lease.token (get lease.key w.gates) ≡ true) where
  abbrev Concluded : Completion T → Type 0
  Concluded a =
      let (r, w') = concluded gate_store g lease.key lease a w in
      IsConclusion lease.key w.now (state_of (get lease.key w.gates)) a r (get lease.key w'.gates)

  concluded_lem : (a : Completion T) → Concluded a
  unfolding ◌>>=◌ settle next_of
  concluded_lem (returned x) =
      (refl, rw (release_lem w.gates lease true w.now held) (get-put_self lease.key _ w.gates))
  concluded_lem (raised (upstream_limited p k until)) =
      rw (block_lem w.gates lease w.now until g.retry_base g.retry_max held) (
        let b =
          blocked_at_bounds w.now until g.retry_base g.retry_max
            (failures w.gates lease w.now until g.retry_base g.retry_max) in
        (_, refl, b.0, b.1, get-put_self lease.key _ w.gates))
  concluded_lem (raised e) = (refl, given_back w.gates lease w.now held)

-- A request that held its lease to its end concludes in its gate by how it ended.
pub request-IsConclusion :
    {E T : Type 0} (g : EndpointRequestGate) (renewals : ℕ) (operation : Action (World E) T)
    (lease : Lease) (w : World E)
    → let (a, v) = beside gate_store g renewals lease operation w in
      holds lease.token (get lease.key v.gates) ≡ true
      → let (r, w') = request gate_store g renewals lease.key operation lease w in
        IsConclusion lease.key v.now (state_of (get lease.key v.gates)) a r (get lease.key w'.gates)
unfolding request settle
request-IsConclusion g renewals operation lease w held =
    concluded_lem g lease (beside gate_store g renewals lease operation w).1 held
      (beside gate_store g renewals lease operation w).0
