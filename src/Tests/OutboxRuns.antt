-- ===== src/Tests/OutboxRuns.antt =====
-- Deliveries at concrete inputs.
use domains_manager.Base.{ℕ, ◌≤◌, ◌≡◌, refl, true, false, none, some, [], ◌∷◌, arith, eqb}
use domains_manager.Base.Table.{find, count}
use domains_manager.Models.{Rule, Outbox, Envelope, sent, running, webhook, status_changed, changed}
use domains_manager.Outgoing.{Message, complete_outbox}
use domains_manager.Outgoing.{Account, Directory, claim_outbox, earliest, earlier, joined}
use domains_manager.Outgoing.Fencing.{delivery_fenced}
use domains_manager.Tests.Data.{webhook_rule}
use domains_manager.Outgoing.Worker.{Limits, delivered, refused, conclude}
use domains_manager.Outgoing.Settled.{
  has_id, here, next, completes, cleans, clean_outbox, settled_forever,
}
use domains_manager.Outgoing.Attempts.{Verdict, conclude-Verdict}

abbrev envelope : Envelope
envelope = record {
  id = 50;
  type = status_changed;
  api_version = "2026-08-30";
  created_at = 9;
  payload = changed 3 40 ("statuses" ∷ []);
  webhook = none;
}

-- A message in delivery under the token 5, for the first time.
abbrev sending : Outbox
sending = record {
  id = 50;
  rule_id = 21;
  domain_id = 3;
  check_id = 40;
  deduplication_key = "key";
  event_type = status_changed;
  payload = envelope;
  status = running;
  attempt_count = 1;
  available_at = some 9;
  lease_until = some 200;
  lease_token = some 5;
  lease_owner = some "n1";
  sent_at = none;
  outcome = none;
  response_status_code = none;
  last_error = none;
  created_at = 9;
  updated_at = 20;
}

abbrev message : Message
message = record {
  id = 50;
  lease_token = 5;
  channel = webhook;
  channel_config = [];
  payload = envelope;
  attempt_count = 1;
  recipient_email = none;
}

abbrev limits : Limits
limits = record {
  lease_duration = 120;
  max_attempts = 5;
  retry_base_delay = 60;
  retry_max_delay = 3600;
}

abbrev finished : Outbox
finished = record sending {
  status = sent;
  lease_token = none;
  lease_until = none;
  sent_at = some 30;
}

found_finished : find (has_id 50) (finished ∷ []) ≡ some finished
unfolding find
found_finished = refl

-- A late completion, and a cleanup of what last changed before the message did.
settled_forever_example :
    find (has_id 50) (clean_outbox 15 (complete_outbox 50 5 40 "success" none (finished ∷ [])).1)
    ≡ some finished
settled_forever_example =
    settled_forever 50 finished found_finished refl
      (next (next here (completes 50 5 40 "success" none refl)) (cleans 15 refl)) refl

found_sending : find (λ (u : Outbox). eqb u.id 50) (sending ∷ []) ≡ some sending
unfolding find
found_sending = refl

conclude-Verdict_example :
    (o' : Outbox) × (find
        (λ (u : Outbox). eqb u.id 50)
        (conclude limits message 30
          (refused "http_error" "failed" (some 503) true none)
          (sending ∷ [])).1
      ≡ some o')
    × Verdict limits (refused "http_error" "failed" (some 503) true none) 30 sending o'
conclude-Verdict_example =
    conclude-Verdict limits message 30 (refused "http_error" "failed" (some 503) true none)
      (sending ∷ []) sending found_sending refl

abbrev rule : Rule
rule = record webhook_rule { id = 21; user_id = 8 }

abbrev account : Account
account = record { id = 8; email = none; email_verified_at = none }

abbrev directory : Directory
directory = (rule ∷ [], account ∷ [])

one_message : (id : ℕ) → count (λ (u : Outbox). eqb u.id id) (sending ∷ []) ≤ 1
unfolding count
one_message id = ground arith

-- The lease ended at 200; at 300 another worker takes the message over.
taken_over :
    (claim_outbox directory 6 "n2" 300 400 (sending ∷ [])).0
    ≡ some (record message { lease_token = 6; attempt_count = 2 })
unfolding claim_outbox earliest earlier joined find
taken_over = refl

delivery_fenced_example :
    let os' = (claim_outbox directory 6 "n2" 300 400 (sending ∷ [])).1 in
    conclude limits message 310 (delivered "success" (some 200)) os' ≡ (false, os')
delivery_fenced_example =
    delivery_fenced limits message 310 (delivered "success" (some 200)) directory 6 "n2" 300 400
      (sending ∷ []) (record message { lease_token = 6; attempt_count = 2 }) one_message taken_over
      refl (ground arith)
