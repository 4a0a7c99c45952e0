-- ===== src/Gates/Attempts.antt =====
-- What an acquisition does to a dictionary of gates: nothing while the gate is busy, and otherwise
-- it writes the lease.
use domains_manager.Base.{
  ℕ, ◌+◌, ◌≡◌, String, Bool, true, false, ◌||◌, none, some, ltb, arith, some_and, or_else, pair_eq,
}
use domains_manager.Base.Dict.{get, put}
use domains_manager.Gates.Calls.{Key, Lease, acquire, leased}
use domains_manager.Gates.Memory
use domains_manager.Gates.Memory.{Item}

-- The tests of `try_acquire_endpoint_gate` in the dictionary.
abbrev pub busy : ℕ → Item → Bool
busy now item =
    some_and item.0.blocked_until (λ until. ltb now until)
    || some_and item.1 (λ l. ltb now l.expires_at)

module _ (key : Key) (owner : String) (token now ttl : ℕ) where
  abbrev pub new_lease : Lease
  new_lease = record { key = key; token = token; expires_at = now + ttl }

  abbrev pub new_item : Item → Item
  new_item item = (record (item.0) { lease_until = some (now + ttl) }, some new_lease)

  pub memory_busy :
      (m : Memory.Gates) (item : Item)
      → or_else (get key m) Memory.no_item ≡ item
      → busy now item ≡ true
      → Memory.step m (acquire key owner token now ttl) ≡ (leased none, m)
  unfolding Memory.step
  memory_busy m item e h = ground arith

  pub memory_free :
      (m : Memory.Gates) (item : Item)
      → or_else (get key m) Memory.no_item ≡ item
      → busy now item ≡ false
      → Memory.step m (acquire key owner token now ttl)
        ≡ (leased (some new_lease), put key (new_item item) m)
  unfolding Memory.step
  memory_free m item e h = ground arith
