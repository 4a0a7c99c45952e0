-- ===== src/Tests/QuotaRuns.antt =====
-- The rate limit at concrete inputs.
use domains_manager.Base.{ℕ, ◌+◌, ◌≤◌, ◌<◌, ◌≡◌, refl, none, some, [], ◌∷◌, arith}
use domains_manager.Base.Dict.{get, keep, put}
use domains_manager.Quotas.{Key, key_eq, Store, Request, length_of, consume}
use domains_manager.Quotas.Kept.{admitted, admitted-le-quota, cleanup_forgets}

abbrev expensive : Key
expensive = ("192.0.2.1", ("expensive", "r"))

abbrev normal : Key
normal = ("192.0.2.1", ("normal", "r"))

-- One expensive request was counted at 5, under a quota of 2 in 120 seconds.
abbrev counting : Store
counting = record { windows = (expensive, (5, 1)) ∷ []; last_cleanup = 0 }

abbrev costly : ℕ → Request
costly now = record { key = expensive; quota = 2; window_seconds = 120; now = now }

counted : get expensive counting.windows ≡ some (5, 1)
unfolding get
counted = refl

admitted-le-quota_example : 1 + admitted expensive (costly 6 ∷ costly 7 ∷ []) counting ≤ 2
admitted-le-quota_example =
    admitted-le-quota expensive 2 120000000 5 (costly 6 ∷ costly 7 ∷ []) 1 counting counted
      (omega arith) ((refl, omega arith, λ h. refl), ((refl, omega arith, λ h. refl), tt))

-- A normal request with windows of one second, 70 seconds later.
abbrev cheap : Request
cheap = record { key = normal; quota = 9; window_seconds = 1; now = 70000000 }

abbrev recent : Store
recent = record { windows = (expensive, (69500000, 1)) ∷ []; last_cleanup = 0 }

still_there : get expensive (consume cheap recent).1.windows ≡ some (69500000, 1)
unfolding consume get keep put
still_there = refl

cleanup_forgets_example : 70000000 < 69500000 + length_of cheap
cleanup_forgets_example =
    cleanup_forgets cheap recent expensive (69500000, 1) (omega arith) refl still_there

-- A window of 120 seconds is dropped after 70 of them by a request with windows of one second.
forgotten : get expensive (consume cheap counting).1.windows ≡ none
unfolding consume get keep put
forgotten = refl
