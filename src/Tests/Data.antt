-- ===== src/Tests/Data.antt =====
-- The rows, policies and answers that the examples run on.
use domains_manager.Base.{true, false, none, some, List, [], ◌∷◌}
use domains_manager.Models.{
  Task, Domain, Database, Rule, Check, null, queued, running, scheduled, status_changed, webhook,
}
use domains_manager.Tasks.Snapshots.{Platform}
use domains_manager.Tasks.Notices.{Fresh}
use domains_manager.Tasks.Service.{Policy, Turn, refused, rate_limited}

abbrev pub platform : Platform
platform = record {
  from_iso = λ s. some 5;
  str = λ j. "value";
  digest = λ s. "digest";
  check_key = λ r c e. "key";
  expiration_key = λ r at n. "expiration";
  int = λ s. some 60;
  decimal = λ n. "n";
}

abbrev pub fresh_ids : Fresh
fresh_ids = λ e r. 900

abbrev pub policy : Policy
policy = record {
  lease_duration = 120;
  successful_check_interval = 700;
  successful_refresh_ttl = 1800000000;
  max_attempts = 5;
  retry_base_delay = 60;
  retry_max_delay = 3600;
}

-- A scheduled task that waits since 10.
abbrev pub waiting_task : Task
waiting_task = record {
  id = 1;
  user_id = 8;
  domain_id = 3;
  status = queued;
  origin = scheduled;
  force_refresh = false;
  attempt_count = 0;
  max_attempts = 5;
  available_at = 10;
  lease_token = none;
  lease_owner = none;
  lease_until = none;
  started_at = none;
  completed_at = none;
  check_id = none;
  source_check_id = none;
  error_code = none;
  error_message = none;
  result_code = none;
  result_message = none;
  fresh_until = none;
  created_at = 10;
  updated_at = 10;
}

-- The same task under the lease with token 70, which ends at 150.
abbrev pub running_task : Task
running_task = record waiting_task {
  status = running;
  attempt_count = 1;
  lease_token = some 70;
  lease_owner = some "w1";
  lease_until = some 150;
  started_at = some 30;
  updated_at = 30;
}

abbrev pub domain : Domain
domain = record {
  id = 3;
  user_id = 8;
  name_ascii = "example.org";
  name_unicode = "example.org";
  registrable_domain = "example.org";
  public_suffix = "org";
  tld = "org";
  registrar_json = null;
  statuses = null;
  registered_at = none;
  expires_at = none;
  registry_expires_at = none;
  registrar_expires_at = none;
  expiration_status = "unknown";
  expiration_checked_at = none;
  registrar_rdap_url = none;
  registry_updated_at = none;
  nameservers = null;
  dnssec_enabled = null;
  latest_source = null;
  last_successful_check_at = none;
  last_check_at = none;
  next_check_at = some 10;
  last_outcome = none;
  monitor_enabled = true;
  renewal_mode = none;
  notes = none;
  version = 1;
  deleted_at = none;
  deleted_by_user_id = none;
  created_at = 10;
  updated_at = 10;
}

abbrev pub webhook_rule : Rule
webhook_rule = record {
  id = 21;
  user_id = 8;
  domain_id = none;
  event_type = status_changed;
  days_before = none;
  channel = webhook;
  webhook_name = some "hook";
  channel_config = [];
  is_enabled = true;
  created_at = 1;
  updated_at = 1;
  deleted_at = none;
}

abbrev pub good_check : Check
good_check = record {
  id = 40;
  domain_id = 3;
  checked_at = 25;
  duration_ms = 7;
  outcome = "success";
  error_code = none;
  error_message = none;
  protocol = null;
  source = null;
  snapshot = some [];
  snapshot_hash = some "digest";
  changed_fields = "statuses" ∷ [];
  is_stale = false;
  created_at = 25;
}

-- A database with that domain and the given tasks.
abbrev pub with_tasks : List Task → Database
with_tasks ts = record {
  tasks = ts;
  domains = domain ∷ [];
  checks = good_check ∷ [];
  idempotency = [];
  rules = webhook_rule ∷ [];
  outbox = [];
  settings = [];
}

abbrev pub idle : Database
idle = with_tasks []

abbrev pub waiting_db : Database
waiting_db = with_tasks (waiting_task ∷ [])

abbrev pub running_db : Database
running_db = with_tasks (running_task ∷ [])

abbrev pub turn : Turn
turn = record {
  worker = "w1";
  token = 70;
  check = 41;
  fresh = fresh_ids;
  claimed_at = 30;
  tested_at = 31;
  finished_at = 90;
  duration = 5;
  lookup = λ name force. refused (some rate_limited) none (some 500);
  meanwhile = λ db. db;
  during_lookup = λ db. db;
}
