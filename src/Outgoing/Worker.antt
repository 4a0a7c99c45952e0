-- ===== src/Outgoing/Worker.antt =====
-- NotificationOutboxService of domainsmanager_application/notifications.py: one turn of a delivery
-- worker, in two transactions.
use domains_manager.Base.{
  ℕ, ◌+◌, ◌-◌, ◌*◌, ◌^◌, min, String, Bool, true, false, Option, none, some, List, eqb,
  if◌then◌else◌,
}
use domains_manager.Models.{Outbox}
use domains_manager.Outgoing.{
  Directory, Message, claim_outbox, complete_outbox, fail_outbox, suppress_outbox,
}

-- The parameters of NotificationOutboxService.
pub record Limits : Type 0 where
  pub lease_duration : ℕ
  pub max_attempts : ℕ
  pub retry_base_delay : ℕ
  pub retry_max_delay : ℕ

-- `_retry_delay`
unfoldable pub retry_delay : Limits → ℕ → ℕ
retry_delay l attempts = min (l.retry_base_delay * 2 ^ (attempts - 1)) l.retry_max_delay

-- What `deliver` does: NotificationDeliveryResult, NotificationDeliverySuppressed,
-- NotificationDeliveryFailure, or any other exception.
pub data Attempt : Type 0 where
  delivered : (outcome : String) → Option ℕ → Attempt
  withheld : (reason : String) → Attempt
  refused :
      (outcome message : String)
      → Option ℕ
      → (retryable : Bool) → (retry_after : Option ℕ) → Attempt
  crashed : Attempt

-- error.retry_after or self._retry_delay(...), where a duration of zero is false
abbrev pub wanted_delay : Option ℕ → ℕ → ℕ
wanted_delay none default = default
wanted_delay (some d) default = if eqb d 0 then default else d

-- The second transaction of `run_once`.
unfoldable pub conclude : Limits → Message → ℕ → Attempt → List Outbox → Bool × List Outbox
unfolding retry_delay complete_outbox fail_outbox suppress_outbox
conclude l m at (delivered outcome code) os = complete_outbox m.id m.lease_token at outcome code os
conclude l m at (withheld reason) os = suppress_outbox m.id m.lease_token at reason os
conclude l m at (refused outcome message code retryable retry_after) os =
    fail_outbox m.id m.lease_token at message l.max_attempts
      (min (wanted_delay retry_after (retry_delay l m.attempt_count)) l.retry_max_delay) outcome
      code retryable os
conclude l m at crashed os =
    fail_outbox m.id m.lease_token at "Notification delivery failed" l.max_attempts
      (retry_delay l m.attempt_count) "network_error" none true os

-- `run_once`, with what other workers commit during the delivery.
unfoldable pub run_delivery :
    Limits
    → Directory
    → (token : ℕ) → String
    → (now at : ℕ) → (Message → Attempt)
    → (List Outbox → List Outbox)
    → List Outbox
    → Bool × List Outbox
run_delivery l d token worker now at deliver meanwhile os =
    let (claimed, os1) = claim_outbox d token worker now (now + l.lease_duration) os in
    elim claimed [
      | none ↦ (false, os)
      | some m ↦ (true, (conclude l m at (deliver m) (meanwhile os1)).1)
    ]
