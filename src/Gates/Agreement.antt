-- ===== src/Gates/Agreement.antt =====
-- The two stores behind `LookupStore` cannot be told apart: any sequence of gate calls gets the
-- same replies from the dictionary and from the table.
mod Relation
mod Acquire
mod Holders
use domains_manager.Base.{
  ℕ, ◌+◌, ◌≡◌, refl, String, Bool, true, false, ◌&&◌, ◌||◌, Option, none, some, List, [], ◌∷◌, eqb,
  leb, ltb, max, not, if◌then◌else◌, arith, ◌⊎◌, inl, inr, Bool-cases, Option-cases, pair_beq,
  pair_beq_iff, some_and, or_else, pair_eq,
}
use domains_manager.Base.Dict.{Dict, get, put, get-put}
use domains_manager.Gates.Calls.{
  Key, Lease, GateState, Call, Reply, acquire, inspect, release, block, renew, leased, state, done,
  blocked, renewed,
}
use domains_manager.Gates.Memory
use domains_manager.Gates.Memory.{Item}
use domains_manager.Gates.Sql
use domains_manager.Gates.Sql.{Row}
use Relation.{SameGates, Agrees}
use Acquire.{acquire-Agrees}
use Holders.{release-Agrees, block-Agrees, renew-Agrees, inspect-Agrees}

-- One call: the same reply, and states that stand for the same gates.
pub step-Agrees :
    (c : Call) (m : Memory.Gates) (s : Sql.Gates)
    → SameGates m s
    → Agrees (Memory.step m c) (Sql.step s c)
step-Agrees (acquire key owner token now ttl) m s all =
    acquire-Agrees key owner token now ttl m s _ _ refl refl (all key) all
step-Agrees (inspect key) m s all = inspect-Agrees key m s all
step-Agrees (release lease succeeded now) m s all = release-Agrees lease succeeded now m s all
step-Agrees (block lease now retry_after base maximum) m s all =
    block-Agrees lease now retry_after base maximum m s all
step-Agrees (renew lease now ttl) m s all = renew-Agrees lease now ttl m s all

-- The replies to a sequence of calls.
unfoldable pub replies {ℓ} : {S : Type ℓ} → (S → Call → Reply × S) → S → List Call → List Reply
replies step s [] = []
replies step s (c ∷ cs) = (step s c).0 ∷ replies step (step s c).1 cs

replies_agree :
    (cs : List Call) (m : Memory.Gates) (s : Sql.Gates)
    → SameGates m s
    → replies Memory.step m cs ≡ replies Sql.step s cs
unfolding replies
replies_agree [] m s all = refl
replies_agree (c ∷ cs) m s all =
    let (a, b) = step-Agrees c m s all in cc (a, replies_agree cs _ _ b)

-- From empty stores, any sequence of gate calls (acquire, inspect, release, block, renew, with any
-- clock readings, tokens and leases) gets the same replies from the in-memory store and from the
-- table of the database.
pub stores_agree : (cs : List Call) → replies Memory.step [] cs ≡ replies Sql.step [] cs
stores_agree cs = replies_agree cs [] [] (λ key. unfold get in tt)
