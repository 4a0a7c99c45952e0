-- ===== src/Gates/Agreement/Relation.antt =====
-- When a dictionary and a table stand for the same gates.
use domains_manager.Base.{◌≡◌, Option, none, some, inl, inr, Bool-cases, pair_beq, pair_eq}
use domains_manager.Base.Dict.{get, put, get-put}
use domains_manager.Gates.Calls.{Key, Reply}
use domains_manager.Gates.Memory
use domains_manager.Gates.Memory.{Item}
use domains_manager.Gates.Sql
use domains_manager.Gates.Sql.{Row}

-- A dictionary item and a row that stand for the same gate.
abbrev pub SameGate : Option Item → Option Row → Type 0
SameGate none none = Unit {0}
SameGate (some (s, none)) (some r) =
    (r.blocked_until ≡ s.blocked_until)
    × (r.failure_count ≡ s.failure_count)
    × (s.lease_until ≡ none)
    × (r.lease_until ≡ none)
    × (r.lease_token ≡ none)
SameGate (some (s, some l)) (some r) =
    (r.blocked_until ≡ s.blocked_until)
    × (r.failure_count ≡ s.failure_count)
    × (s.lease_until ≡ some l.expires_at)
    × (r.lease_until ≡ some l.expires_at)
    × (r.lease_token ≡ some l.token)
SameGate _ _ = ⊥

abbrev pub SameGates : Memory.Gates → Sql.Gates → Type 0
SameGates m s = (key : Key) → SameGate (get key m) (get key s)

pub put-SameGates :
    (key : Key) (i : Item) (r : Row) (m : Memory.Gates) (s : Sql.Gates)
    → SameGate (some i) (some r)
    → SameGates m s
    → SameGates (put key i m) (put key r s)
put-SameGates key i r m s h all j = elim (Bool-cases (pair_beq key j)) [
  | inl hit ↦ rw (get-put key j i m, get-put key j r s, hit) h
  | inr miss ↦ rw (get-put key j i m, get-put key j r s, miss) (all j)
]

-- A reply and a pair of states that agree.
abbrev pub Agrees : Reply × Memory.Gates → Reply × Sql.Gates → Type 0
Agrees (a, m) (b, s) = (a ≡ b) × SameGates m s
