-- ===== src/Quotas.antt =====
-- MemoryRateLimitStore of domainsmanager_api/rate_limit.py: fixed windows of counted requests. The
-- monotonic clock is read in microseconds, and outside the lock, so a reading may lie before the
-- times in the store.
pub mod Kept
use domains_manager.Base.{
  ℕ, ◌+◌, ◌-◌, ◌*◌, ◌/◌, max, String, Bool, true, false, not, Option, none, some, List, [], ◌∷◌,
  ltb, leb, if◌then◌else◌, or_else, str_eq, eq_iff, pair_beq, pair_beq_iff, Eq, ◌&&◌, ◌≡◌, ◌↔◌,
  arith,
}
use domains_manager.Base.Dict.{Dict, get, put, keep}

-- (subject, policy, revision)
abbrev pub Key : Type 0
Key = String × (String × String)

abbrev pub key_beq : Key → Key → Bool
key_beq (a, p) (b, q) = str_eq a b && pair_beq p q

pub key_beq_iff : (a b : Key) → (key_beq a b ≡ true) ↔ (a ≡ b)
key_beq_iff (a, p) (b, q) = ground (arith, eq_iff a b, pair_beq_iff p q)

instance abbrev pub key_eq : Eq Key
key_eq = record { is_same = key_beq; is_same_iff = key_beq_iff }

-- (started_at, count)
abbrev pub Window : Type 0
Window = ℕ × ℕ

pub record Store : Type 0 where
  pub windows : Dict Key Window
  pub last_cleanup : ℕ

-- The arguments of `consume`, with the reading of the clock.
pub record Request : Type 0 where
  pub key : Key
  pub quota : ℕ
  pub window_seconds : ℕ
  pub now : ℕ

abbrev pub second : ℕ
second = 1000000

abbrev pub length_of : Request → ℕ
length_of r = r.window_seconds * second

-- now - item[0] < window_seconds
abbrev pub is_open : ℕ → ℕ → Key → Window → Bool
is_open window now key w = ltb now (w.0 + window)

unfoldable pub cleanup : ℕ → ℕ → Store → Store
cleanup window now s =
    if leb (s.last_cleanup + window) now
    then record { windows = keep (is_open window now) s.windows; last_cleanup = now }
    else s

-- The window that the request counts in.
abbrev pub current : ℕ → ℕ → Option Window → Window
current window now none = (now, 0)
current window now (some w) = if leb (w.0 + window) now then (now, 0) else w

-- `consume`: whether the request is admitted, and the seconds to wait.
unfoldable pub consume : Request → Store → (Bool × ℕ) × Store
unfolding cleanup
consume r s =
    let window = length_of r in
    let s' = cleanup window r.now s in
    let w = current window r.now (get r.key s'.windows) in
    let limited = leb r.quota w.1 in
    let retry_after = max 1 ((w.0 + window - r.now) / second) in
    if limited
    then ((false, retry_after), s')
    else ((true, retry_after), record s' { windows = put r.key (w.0, w.1 + 1) s'.windows })
