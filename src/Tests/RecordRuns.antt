-- ===== src/Tests/RecordRuns.antt =====
-- The records of lookups at concrete inputs.
use domains_manager.Base.{ℕ, ◌+◌, ◌≡◌, refl, none, some, [], ◌∷◌}
use domains_manager.Base.Dict.{get}
use domains_manager.Records.{Key, Stored, RefreshLease, empty, get_current, try_acquire_lease}
use domains_manager.Records.Current.{publish_all, IsCurrent, publish_all-IsCurrent}

abbrev key : Key
key = ("rdap", "example.org")

-- Every record is of that key, and the one with the identifier 2 is the newest.
abbrev catalog : ℕ → Stored
catalog id = record {
  record_id = id;
  key = key;
  schema_version = 1;
  payload = "payload";
  payload_codec = "json";
  content_hash = "hash";
  observed_at = 100 + id;
  fresh_until = 200;
  stale_until = none;
  retry_after = none;
  record_kind = "success";
  protocol = none;
  endpoint = none;
  status_code = none;
}

publish_all-IsCurrent_example :
    IsCurrent key
      (catalog 2 ∷ catalog 1 ∷ [])
      (get_current key (publish_all (catalog 2 ∷ catalog 1 ∷ []) empty))
publish_all-IsCurrent_example =
    publish_all-IsCurrent catalog key (catalog 2 ∷ catalog 1 ∷ []) (refl, (refl, tt))

abbrev lease : RefreshLease
lease = record { key = key; token = 5; owner = "w1"; expires_at = 30 }

leased : (try_acquire_lease key "w1" 5 20 10 empty).0 ≡ some lease
unfolding try_acquire_lease get
leased = refl
