-- ===== src/Tasks/Notices.antt =====
-- `_queue_notifications`, `_queue_expiration_notifications` and `_add_outbox`: the messages that a
-- finished check leaves in the outbox, at most one under a deduplication key.
pub mod Once
use domains_manager.Base.{
  ℕ, ◌+◌, ◌*◌, String, Bool, true, false, ◌&&◌, ◌||◌, not, none, some, List, [], ◌∷◌, eqb, leb,
  str_eq, if◌then◌else◌, none_or, some_and, or_else, string_eq,
}
use domains_manager.Base.Result.{Result, ok, err, type_error}
use domains_manager.Base.Dict.{get}
use domains_manager.Base.Table.{find, select}
use domains_manager.Models.{
  Task, Check, Database, Rule, Outbox, Envelope, Payload, EventType, Json, text, texts, object,
  changed, failing, expiring, expiration_warning, status_changed, pending, event_beq, is_email,
}
use domains_manager.Tasks.Snapshots.{Platform, snapshot_datetime, field_of}

-- The identifiers that `uuid4` returns for the messages of one call, by event and rule.
abbrev pub Fresh : Type 0
Fresh = EventType → ℕ → ℕ

-- timedelta(days=n)
abbrev pub days : ℕ → ℕ
days n = n * 86400000000

-- `_smtp_enabled`
unfoldable pub smtp_enabled : Database → Bool
smtp_enabled db = none_or (get "smtp_enabled" db.settings) (λ v. str_eq v "true")

abbrev pub is_rule_for : Task → EventType → Rule → Bool
is_rule_for t e r =
    eqb r.user_id t.user_id
    && (r.is_enabled && (event_beq r.event_type e && none_or r.domain_id (λ d. eqb d t.domain_id)))

envelope : ℕ → EventType → ℕ → Payload → Rule → Envelope
envelope id e at payload r = record {
  id = id;
  type = e;
  api_version = "2026-08-30";
  created_at = at;
  payload = payload;
  webhook = if is_email r.channel then none else some (r.id, r.webhook_name);
}

-- `_add_outbox`: the unique deduplication key turns a second message into nothing.
unfoldable pub add_outbox :
    ℕ → Rule → Task → Check → EventType → String → Payload → ℕ → List Outbox → List Outbox
unfolding envelope
add_outbox id r t c e key payload at outbox =
    elim (find (λ (o : Outbox). str_eq o.deduplication_key key) outbox) [
      | some o ↦ outbox
      | none ↦
          record {
            id = id;
            rule_id = r.id;
            domain_id = t.domain_id;
            check_id = c.id;
            deduplication_key = key;
            event_type = e;
            payload = envelope id e at payload r;
            status = pending;
            attempt_count = 0;
            available_at = some at;
            lease_until = none;
            lease_token = none;
            lease_owner = none;
            sent_at = none;
            outcome = none;
            response_status_code = none;
            last_error = none;
            created_at = at;
            updated_at = at;
          }
          ∷ outbox
    ]

-- rule.channel == "email" and not smtp_enabled
abbrev pub is_muted : Bool → Rule → Bool
is_muted smtp r = is_email r.channel && not smtp

payload_of : Task → Check → EventType → Payload
payload_of t c status_changed = changed t.domain_id c.id c.changed_fields
payload_of t c e = failing t.domain_id c.id (or_else c.error_code c.outcome)

-- One turn of the loop of `_queue_notifications`.
unfoldable pub notify_rule :
    Platform → Fresh → Bool → Task → Check → EventType → ℕ → Rule → List Outbox → List Outbox
unfolding payload_of
notify_rule p fresh smtp t c e at r outbox =
    if is_muted smtp r
    then outbox
    else add_outbox (fresh e r.id) r t c e (p.check_key r.id c.id e) (payload_of t c e) at outbox

unfoldable pub notify_all :
    (Rule → List Outbox → List Outbox) → List Rule → List Outbox → List Outbox
notify_all step [] outbox = outbox
notify_all step (r ∷ rs) outbox = notify_all step rs (step r outbox)

-- `_queue_notifications`
unfoldable pub queue_notifications :
    Platform → Fresh → Task → Check → EventType → ℕ → Database → Database
queue_notifications p fresh t c e at db = record db {
  outbox =
      notify_all (notify_rule p fresh (smtp_enabled db) t c e at)
        (select (is_rule_for t e) db.rules) db.outbox;
}

-- rule.days_before is not None and expires_at <= at + timedelta(days=rule.days_before)
abbrev pub is_due : ℕ → ℕ → Rule → Bool
is_due expires_at at r = some_and r.days_before (λ n. leb expires_at (at + days n))

-- One turn of the loop of `_queue_expiration_notifications`.
unfoldable pub warn_rule :
    Platform → Fresh → Bool → Task → Check → ℕ → ℕ → Rule → List Outbox → List Outbox
warn_rule p fresh smtp t c expires_at at r outbox =
    let before = or_else r.days_before 0 in
    if is_muted smtp r
    then outbox
    else if is_due expires_at at r
    then add_outbox (fresh expiration_warning r.id) r t c expiration_warning
        (p.expiration_key r.id expires_at before) (expiring t.domain_id c.id expires_at before) at
        outbox
    else outbox

-- snapshot.get("expiration_status") in {"active", "grace_period"}, where a list and an object cannot
-- be hashed.
warns_about : Json → Result Bool
warns_about (text s) = ok (str_eq s "active" || str_eq s "grace_period")
warns_about (texts ss) = err type_error
warns_about (object s) = err type_error
warns_about _ = ok false

-- `_queue_expiration_notifications`
unfoldable pub queue_expiration_notifications :
    Platform → Fresh → Task → Check → ℕ → Database → Result Database
unfolding warns_about
queue_expiration_notifications p fresh t c at db =
    let s = or_else c.snapshot [] in
    elim (snapshot_datetime p (field_of "registrar_expires_at" s)) [
      | err e ↦ err e
      | ok expires ↦ elim (warns_about (field_of "expiration_status" s)) [
        | err e ↦ err e
        | ok false ↦ ok db
        | ok true ↦ elim expires [
          | none ↦ ok db
          | some expires_at ↦ ok (record db {
            outbox =
                notify_all (warn_rule p fresh (smtp_enabled db) t c expires_at at)
                  (select (is_rule_for t expiration_warning) db.rules) db.outbox;
          })
        ]
      ]
    ]
