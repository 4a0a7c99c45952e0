-- ===== src/Lookup/RequestGate.antt =====
-- EndpointRequestGate of domainsmanager_lookup/endpoint_gate.py, over the gate half of the protocol
-- LookupStore, and the in-memory store as one. The keys of endpoints are texts.
pub mod Waits
pub mod Conclusions
use domains_manager.Base.{
  ℕ, zero, suc, ◌+◌, ◌/◌, String, Bool, true, false, Option, none, some, ltb, if◌then◌else◌,
  some_and,
}
use domains_manager.Gates.Calls.{
  Key, Lease, GateState, Reply, acquire, inspect, release, block, renew, leased, state, done,
  blocked, renewed,
}
use domains_manager.Gates.Memory
use domains_manager.Lookup.{Raised, upstream_limited, timed_out}
use domains_manager.Lookup.Effects.{
  Completion, returned, raised, Action, pure, raise, settle, ◌>>=◌, ◌>>◌,
}

pub record GateStore (W : Type 0) : Type 0 where
  pub acquire_gate : Key → (owner : String) → (ttl : ℕ) → Action W (Option Lease)
  pub get_state : Key → Action W (Option GateState)
  pub release_gate : Lease → (succeeded : Bool) → Action W (Unit {0})
  pub block_gate : Lease → Option ℕ → (base maximum : ℕ) → Action W ℕ
  pub renew_gate : Lease → (ttl : ℕ) → Action W Bool
  pub read_clock : Action W ℕ
  pub sleep : ℕ → Action W (Unit {0})

-- The settings of EndpointRequestGate.
pub record EndpointRequestGate : Type 0 where
  pub owner : String
  pub lease_duration : ℕ
  pub retry_base : ℕ
  pub retry_max : ℕ
  pub busy_poll : ℕ

module _ {W T : Type 0} (store : GateStore W) (g : EndpointRequestGate) where
  -- The request with `_maintain_lease` beside it, where so many renewals fall into the request. What
  -- the request does while they run is done when it ends.
  unfoldable pub beside : (renewals : ℕ) → Lease → Action W T → Action W T
  beside zero lease operation = operation
  beside (suc renewals) lease operation = do
    store.sleep (g.lease_duration / 3)
    held ← store.renew_gate lease g.lease_duration
    if held
        then beside renewals lease operation
        else raise (timed_out "endpoint request lease lost")

  -- The `except`, `else` and `finally` of `run`.
  abbrev pub concluded : Key → Lease → Completion T → Action W T
  concluded key lease (returned result) = store.release_gate lease true >> pure result
  concluded key lease (raised (upstream_limited protocol endpoint until)) = do
    blocked_until ← store.block_gate lease until g.retry_base g.retry_max
    raise (upstream_limited (key.0) (key.1) (some blocked_until))
  concluded key lease (raised e) = store.release_gate lease false >> raise e

  unfoldable pub request : (renewals : ℕ) → Key → Action W T → Lease → Action W T
  request renewals key operation lease =
      settle (beside renewals lease operation) (concluded key lease)

  abbrev pub answered : T → Action W (Option T)
  answered x = pure (some x)

  -- A gate that is blocked ends the waiting.
  abbrev pub refused_or : Key → Action W (Option T) → Option GateState → ℕ → Action W (Option T)
  refused_or key again none now = again
  refused_or key again (some s) now =
      if some_and s.blocked_until (λ until. ltb now until)
      then raise (upstream_limited (key.0) (key.1) s.blocked_until)
      else again

  abbrev pub run_or_wait :
      (renewals : ℕ) → Key → Action W T → Action W (Option T) → Option Lease → Action W (Option T)
  run_or_wait renewals key operation again (some lease) =
      request renewals key operation lease >>= answered
  run_or_wait renewals key operation again none = do
    s ← store.get_state key
    now ← store.read_clock
    refused_or key again s now

  -- `run`, which polls the gate as often as the fuel lets it; `none` is a request that still waits.
  unfoldable pub run : (fuel renewals : ℕ) → Key → Action W T → Action W (Option T)
  run zero renewals key operation = pure none
  run (suc fuel) renewals key operation = do
    lease ← store.acquire_gate key g.owner g.lease_duration
    run_or_wait renewals key operation (store.sleep g.busy_poll >> run fuel renewals key operation)
        lease

-- A process with MemoryLookupStore: its gates, the time, and the next token of `uuid4`.
pub record World (E : Type 0) : Type 0 where
  pub gates : Memory.Gates
  pub now : ℕ
  pub next_token : ℕ
  pub rest : E

abbrev pub lease_of : Reply → Option Lease
lease_of (leased l) = l
lease_of _ = none

abbrev pub state_in : Reply → Option GateState
state_in (state s) = s
state_in _ = none

abbrev pub time_of : Reply → ℕ
time_of (blocked until) = until
time_of _ = 0

abbrev pub held_in : Reply → Bool
held_in (renewed held) = held
held_in _ = false

abbrev pub gate_store : {E : Type 0} → GateStore (World E)
gate_store = record {
  acquire_gate = λ key owner ttl w.
      let (reply, g) = Memory.step w.gates (acquire key owner w.next_token w.now ttl) in
      (returned (lease_of reply), record w { gates = g; next_token = w.next_token + 1 });
  get_state = λ key w. (returned (state_in (Memory.step w.gates (inspect key)).0), w);
  release_gate = λ lease succeeded w.
      (returned tt, record w { gates = (Memory.step w.gates (release lease succeeded w.now)).1 });
  block_gate = λ lease until base maximum w.
      let (reply, g) = Memory.step w.gates (block lease w.now until base maximum) in
      (returned (time_of reply), record w { gates = g });
  renew_gate = λ lease ttl w.
      let (reply, g) = Memory.step w.gates (renew lease w.now ttl) in
      (returned (held_in reply), record w { gates = g });
  read_clock = λ w. (returned w.now, w);
  sleep = λ n w. (returned tt, record w { now = w.now + n });
}
