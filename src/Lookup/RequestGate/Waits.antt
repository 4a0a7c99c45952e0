-- ===== src/Lookup/RequestGate/Waits.antt =====
-- How long `run` of EndpointRequestGate waits for a gate in memory that nobody else changes: to the
-- end of its lease at most.
use domains_manager.Base.{
  ℕ, zero, suc, ◌+◌, ◌*◌, ◌≤◌, ◌≡◌, ◌≢◌, refl, true, false, none, some, ltb, arith, inl, inr,
  Bool-cases, Option-cases, if◌then◌else◌, some_and, or_else, pair_eq,
}
use domains_manager.Base.Dict.{get}
use domains_manager.Gates.Calls.{Key, inspect, state}
use domains_manager.Gates.Attempts.{busy, new_lease, memory_busy, memory_free}
use domains_manager.Gates.Memory
use domains_manager.Gates.Memory.{Item, no_item}
use domains_manager.Lookup.{upstream_limited}
use domains_manager.Lookup.Effects.{Completion, returned, raised, Action, ◌>>=◌, settle, next_of}
use domains_manager.Lookup.RequestGate.{EndpointRequestGate, World, gate_store, request, run}

abbrev pub item_at : Key → Memory.Gates → Item
item_at key gates = or_else (get key gates) no_item

-- When the lease of a gate ends.
abbrev pub lease_end : Item → ℕ
lease_end (s, none) = 0
lease_end (s, some l) = l.expires_at

inspect_lem :
    (gates : Memory.Gates) (key : Key) (item : Item)
    → get key gates ≡ some item
    → Memory.step gates (inspect key) ≡ (state (some (item.0)), gates)
unfolding Memory.step
inspect_lem gates key item e = rw (e, Memory.step)

module _ {E T : Type 0} where
  answered-ne-none :
      (m : Action (World E) T) (w : World E)
      → ((m >>= (λ x. λ v. (returned (some x), v))) w).0 ≢ returned none
  unfolding ◌>>=◌ settle next_of
  answered-ne-none m w = go (m w).0 (m w).1
    where
      go :
          (a : Completion T) (v : World E)
          → (next_of (λ x. λ u. (returned (some x), u)) a v).0 ≢ returned none
      go (returned x) v e = ground arith
      go (raised x) v e = ground arith

module _ {E T : Type 0} (g : EndpointRequestGate) (renewals : ℕ) (key : Key)
    (operation : Action (World E) T) where
  run_of_free :
      (fuel : ℕ) (w : World E)
      → busy w.now (item_at key w.gates) ≡ false
      → (run gate_store g (suc fuel) renewals key operation w).0 ≢ returned none
  unfolding run ◌>>=◌ settle next_of
  run_of_free fuel w free =
      rw
        (memory_free key g.owner w.next_token w.now g.lease_duration w.gates (item_at key w.gates)
          refl free)
        (answered-ne-none
          (request gate_store g renewals key operation
            (new_lease key g.owner w.next_token w.now g.lease_duration))
          _)

  -- One refused poll, and the pause behind it.
  abbrev paused : World E → World E
  paused w = record w { next_token = w.next_token + 1; now = w.now + g.busy_poll }

  run_of_busy :
      (fuel : ℕ) (w : World E) (item : Item)
      → get key w.gates ≡ some item
      → busy w.now item ≡ true
      → run gate_store g (suc fuel) renewals key operation w ≡ (
          if some_and item.0.blocked_until (λ until. ltb w.now until)
          then (
            raised (upstream_limited (key.0) (key.1) item.0.blocked_until),
            record w { next_token = w.next_token + 1 },
          )
          else run gate_store g fuel renewals key operation (paused w))
  unfolding run ◌>>=◌ settle next_of
  run_of_busy fuel w item e b =
      rw
        (
          memory_busy key g.owner w.next_token w.now g.lease_duration w.gates item (rw e refl) b,
          inspect_lem w.gates key item e,
        )
        (elim (Bool-cases (some_and item.0.blocked_until (λ until. ltb w.now until))) [
          | inl c ↦ rw c
          | inr c ↦ rw c
        ])

  free_of_none : (w : World E) → get key w.gates ≡ none → busy w.now (item_at key w.gates) ≡ false
  free_of_none w e = rw e

  blocked_ends :
      (fuel : ℕ) (w : World E) (item : Item)
      → get key w.gates ≡ some item
      → busy w.now item ≡ true
      → some_and item.0.blocked_until (λ until. ltb w.now until) ≡ true
      → (run gate_store g (suc fuel) renewals key operation w).0 ≢ returned none
  blocked_ends fuel w item e b c = rw (run_of_busy fuel w item e b, c) (λ h. ground arith)

  later :
      (fuel : ℕ) (w : World E) (item : Item)
      → get key w.gates ≡ some item
      → busy w.now item ≡ true
      → lease_end item ≤ w.now + fuel * g.busy_poll
      → (run gate_store g (suc fuel) renewals key operation w).0 ≢ returned none
  later zero w (s, none) e b h = blocked_ends zero w (s, none) e b (ground arith)
  later zero w (s, some l) e b h = blocked_ends zero w (s, some l) e b (ground arith)
  later (suc fuel) w (s, lease) e b h =
      elim (Bool-cases (some_and s.blocked_until (λ until. ltb w.now until))) [
        | inl c ↦ blocked_ends (suc fuel) w (s, lease) e b c
        | inr c ↦
            rw (run_of_busy (suc fuel) w (s, lease) e b, c)
              (elim (Bool-cases (busy (paused w).now (s, lease))) [
                | inr free ↦ run_of_free fuel (paused w) (rw e free)
                | inl busy' ↦ later fuel (paused w) (s, lease) e busy' (ground arith)
              ])
      ]

  -- With a poll more than fit between now and the end of the lease that a gate has, `run` ends: it
  -- has made the request, or it raises.
  pub run_ends :
      (fuel : ℕ) (w : World E)
      → lease_end (item_at key w.gates) ≤ w.now + fuel * g.busy_poll
      → (run gate_store g (suc fuel) renewals key operation w).0 ≢ returned none
  run_ends fuel w h = elim (Bool-cases (busy w.now (item_at key w.gates))) [
    | inr free ↦ run_of_free fuel w free
    | inl b ↦ elim (Option-cases (get key w.gates)) [
      | inl e ↦ absurd (ground (arith, free_of_none w e))
      | inr (item, e) ↦ later fuel w item e (rw e at b) (rw e at h)
    ]
  ]
