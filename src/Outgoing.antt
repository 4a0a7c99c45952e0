-- ===== src/Outgoing.antt =====
-- The delivery of the messages in the outbox: the outbox half of SqlAlchemyNotificationRuleRepository
-- (domainsmanager_persistence/notifications.py), with the turns of the worker below. The rows of app_user and notification_rule are
-- only read, so they are arguments.
pub mod Worker
pub mod Settled
pub mod Attempts
pub mod Fencing
use domains_manager.Base.{
  ℕ, ◌+◌, ◌-◌, ◌*◌, ◌^◌, min, String, Bool, true, false, ◌&&◌, ◌||◌, not, Option, none, some, List,
  [], ◌∷◌, eqb, ltb, leb, if◌then◌else◌, is_none, is_some, some_and, or_else,
}
use domains_manager.Base.Dict.{Dict}
use domains_manager.Base.Table.{find, update}
use domains_manager.Models.{
  Rule, Outbox, Envelope, Json, Channel, pending, running, sent, dead_letter, skipped, is_email,
  is_pending, is_in_delivery, prefix,
}

-- AppUser: the columns that the join reads.
pub record Account : Type 0 where
  pub id : ℕ
  pub email : Option String
  pub email_verified_at : Option ℕ

-- OutboxMessage
pub record Message : Type 0 where
  pub id : ℕ
  pub lease_token : ℕ
  pub channel : Channel
  pub channel_config : Dict String Json
  pub payload : Envelope
  pub attempt_count : ℕ
  pub recipient_email : Option String

-- The rows outside the outbox that `claim_outbox` joins.
abbrev pub Directory : Type 0
Directory = List Rule × List Account

abbrev pub rule_of : Directory → Outbox → Option Rule
rule_of (rules, accounts) o = find (λ (r : Rule). eqb r.id o.rule_id) rules

abbrev pub account_of : Directory → Rule → Option Account
account_of (rules, accounts) r = find (λ (a : Account). eqb a.id r.user_id) accounts

-- The conditions on the rule and its user.
abbrev pub is_reachable : Rule → Account → Bool
is_reachable r a =
    (r.is_enabled && is_none r.deleted_at)
    && (not (is_email r.channel) || (is_some a.email && is_some a.email_verified_at))

-- The join with the conditions on the joined rows.
unfoldable pub joined : Directory → Outbox → Option (Rule × Account)
joined d o = elim (rule_of d o) [
  | none ↦ none
  | some r ↦ elim (account_of d r) [
    | none ↦ none
    | some a ↦ if is_reachable r a then some (r, a) else none
  ]
]

-- The conditions on the message itself.
abbrev pub is_ripe : ℕ → Outbox → Bool
is_ripe now o =
    (is_pending o.status && some_and o.available_at (λ at. leb at now))
    || (is_in_delivery o.status && some_and o.lease_until (λ until. leb until now))

abbrev pub is_deliverable : Directory → ℕ → Outbox → Bool
is_deliverable d now o = is_ripe now o && is_some (joined d o)

-- ORDER BY available_at, id, for rows with a time of availability: every statement that writes a
-- row sets it.
abbrev pub is_earlier : Outbox → Outbox → Bool
is_earlier a b =
    let x = or_else a.available_at 0 in
    let y = or_else b.available_at 0 in ltb x y || (eqb x y && leb a.id b.id)

unfoldable pub earlier : Outbox → Option Outbox → Outbox
earlier o none = o
earlier o (some u) = if is_earlier o u then o else u

unfoldable pub earliest : (Outbox → Bool) → List Outbox → Option Outbox
unfolding earlier
earliest p [] = none
earliest p (o ∷ os) = let rest = earliest p os in if p o then some (earlier o rest) else rest

abbrev pub taken : ℕ → String → ℕ → ℕ → Outbox → Outbox
taken token worker now until o = record o {
  status = running;
  lease_token = some token;
  lease_owner = some worker;
  lease_until = some until;
  updated_at = now;
  attempt_count = o.attempt_count + 1;
}

abbrev pub message_of : ℕ → Outbox → Rule × Account → Message
message_of token o (r, a) = record {
  id = o.id;
  lease_token = token;
  channel = r.channel;
  channel_config = r.channel_config;
  payload = o.payload;
  attempt_count = o.attempt_count + 1;
  recipient_email = a.email;
}

-- `claim_outbox`, with the token that `uuid4` returned. It writes to the row that it locked.
unfoldable pub claim_outbox :
    Directory → ℕ → String → ℕ → ℕ → List Outbox → Option Message × List Outbox
unfolding joined
claim_outbox d token worker now until os = elim (earliest (is_deliverable d now) os) [
  | none ↦ (none, os)
  | some o ↦ elim (joined d o) [
    | none ↦ (none, os)
    | some j ↦ (
      some (message_of token o j),
      update (λ (u : Outbox). eqb u.id o.id && is_deliverable d now u)
          (taken token worker now until) os,
    )
  ]
]

-- The condition of `_locked_outbox`.
abbrev pub is_sending : ℕ → ℕ → Outbox → Bool
is_sending id token o =
    eqb o.id id && (is_in_delivery o.status && some_and o.lease_token (λ held. eqb held token))

-- `_locked_outbox` with the write that follows it.
unfoldable pub write_outbox : ℕ → ℕ → (Outbox → Outbox) → List Outbox → Bool × List Outbox
write_outbox id token f os = elim (find (is_sending id token) os) [
  | none ↦ (false, os)
  | some o ↦ (true, update (is_sending id token) f os)
]

abbrev pub unheld : ℕ → Outbox → Outbox
unheld at o = record o {
  lease_token = none;
  lease_owner = none;
  lease_until = none;
  updated_at = at;
}

abbrev pub completed : ℕ → String → Option ℕ → Outbox → Outbox
completed at outcome code o = record (unheld at o) {
  status = sent;
  sent_at = some at;
  outcome = some outcome;
  response_status_code = code;
  last_error = none;
}

unfoldable pub complete_outbox : ℕ → ℕ → ℕ → String → Option ℕ → List Outbox → Bool × List Outbox
unfolding write_outbox
complete_outbox id token at outcome code os = write_outbox id token (completed at outcome code) os

-- not retryable or row.attempt_count >= max_attempts
abbrev pub is_hopeless : Bool → ℕ → Outbox → Bool
is_hopeless retryable most o = not retryable || leb most o.attempt_count

abbrev pub failed : ℕ → String → ℕ → ℕ → String → Option ℕ → Bool → Outbox → Outbox
failed at error most delay outcome code retryable o = record (unheld at o) {
  status = if is_hopeless retryable most o then dead_letter else pending;
  available_at = some (if is_hopeless retryable most o then at else at + delay);
  last_error = some (prefix 512 error);
  outcome = some outcome;
  response_status_code = code;
}

unfoldable pub fail_outbox :
    ℕ → ℕ → ℕ → String → ℕ → ℕ → String → Option ℕ → Bool → List Outbox → Bool × List Outbox
unfolding write_outbox
fail_outbox id token at error most delay outcome code retryable os =
    write_outbox id token (failed at error most delay outcome code retryable) os

abbrev pub suppressed : ℕ → String → Outbox → Outbox
suppressed at reason o = record (unheld at o) {
  status = skipped;
  last_error = some (prefix 512 reason);
  outcome = some "suppressed";
  response_status_code = none;
}

unfoldable pub suppress_outbox : ℕ → ℕ → ℕ → String → List Outbox → Bool × List Outbox
unfolding write_outbox
suppress_outbox id token at reason os = write_outbox id token (suppressed at reason) os
