-- ===== src/Gates/Delay.antt =====
-- `endpoint_retry_delay`: doubling from `base`, saturated before each multiplication. Durations are
-- numbers, so the guard for negative ones is the guard for zero.
use native.Mathlib.Nat.{pow-suc}
use domains_manager.Base.{
  ℕ, zero, suc, ◌+◌, ◌-◌, ◌*◌, ◌^◌, ◌≤◌, ◌≡◌, min, eqb, leb, arith, if◌then◌else◌,
}

-- The loop over the failures behind the first.
unfoldable pub double_up : ℕ → ℕ → ℕ → ℕ
double_up zero maximum delay = delay
double_up (suc rounds) maximum delay =
    let rest = double_up rounds maximum (delay + delay) in
    if leb (maximum - delay) delay then maximum else rest

unfoldable pub endpoint_retry_delay : ℕ → ℕ → ℕ → ℕ
endpoint_retry_delay failures base maximum =
    let delay = min base maximum in
    if eqb delay 0 then 0 else double_up (failures - 1) maximum delay

pow_pos : (k : ℕ) → 1 ≤ 2 ^ k
pow_pos zero = omega arith
pow_pos (suc k) = rw (pow-suc 2 k) (omega (arith, pow_pos k))

le-mul : (a b : ℕ) → 1 ≤ b → a ≤ a * b
le-mul a b h = grind arith

doubled : (d k : ℕ) → d * 2 ^ suc k ≡ (d + d) * 2 ^ k
doubled d k = rw (pow-suc 2 k) (omega arith)

double_up-eq-min : (k m d : ℕ) → d ≤ m → double_up k m d ≡ min m (d * 2 ^ k)
unfolding double_up
double_up-eq-min zero m d h = omega arith
double_up-eq-min (suc k) m d h =
    ground (arith, doubled d k, le-mul (d + d) (2 ^ k), pow_pos k, double_up-eq-min k m (d + d))

-- The delay is the least of the maximum and the base doubled once for each failure behind the
-- first, for all failures, bases and maxima: saturating before each doubling loses nothing.
pub retry_delay-eq-min :
    (failures base maximum : ℕ)
    → endpoint_retry_delay failures base maximum ≡ min maximum (base * 2 ^ (failures - 1))
unfolding endpoint_retry_delay
retry_delay-eq-min failures base maximum = ground (
  arith,
  double_up-eq-min (failures - 1) maximum (min base maximum),
  le-mul base (2 ^ (failures - 1)),
  le-mul maximum (2 ^ (failures - 1)),
  pow_pos (failures - 1),
)
