-- ===== src/Tests/GateRuns.antt =====
-- The endpoint gates at concrete inputs.
use domains_manager.Base.{◌≡◌, refl, true, none, some, List, [], ◌∷◌, pair_eq}
use domains_manager.Base.Dict.{get}
use domains_manager.Gates.Delay.{double_up, endpoint_retry_delay}
use domains_manager.Gates.Calls.{Key, Lease, Call, acquire, inspect, release, block, renew, blocked}
use domains_manager.Gates.Memory
use domains_manager.Gates.Memory.{Gates, step, holds, try_acquire}
use domains_manager.Gates.Sql
use domains_manager.Gates.Agreement.{replies, stores_agree}

abbrev key : Key
key = ("whois", "whois.example")

abbrev lease : Lease
lease = record { key = key; token = 5; expires_at = 30 }

abbrev calls : List Call
calls =
    acquire key "w1" 5 20 10
    ∷ acquire key "w2" 6 25 10
    ∷ block lease 26 none 60 3600
    ∷ inspect key
    ∷ acquire key "w2" 7 40 10
    ∷ release lease true 41
    ∷ renew lease 42 10
    ∷ []

stores_agree_example : replies Memory.step [] calls ≡ replies Sql.step [] calls
stores_agree_example = stores_agree calls

-- The gate under that lease.
abbrev held : Gates
held =
    (key, (record { blocked_until = none; lease_until = some 30; failure_count = 0 }, some lease))
    ∷ []

is_held : holds 5 (get key held) ≡ true
unfolding get
is_held = refl

cooling : (step held (block lease 26 none 60 3600)).0 ≡ blocked 86
unfolding step endpoint_retry_delay double_up get
cooling = refl
