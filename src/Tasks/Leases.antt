-- ===== src/Tasks/Leases.antt =====
-- SqlAlchemyTaskRepository: claiming a task, its lease, and handing it back. The two statements of
-- `claim` are separate functions, since another worker may write between them.
use domains_manager.Base.{
  ℕ, ◌+◌, ◌-◌, String, Bool, true, false, ◌&&◌, ◌||◌, Option, none, some, List, [], ◌∷◌, eqb, leb,
  if◌then◌else◌, some_and, or_else,
}
use domains_manager.Base.Table.{find, update}
use domains_manager.Models.{Task, Domain, Database, queued, running, is_queued, is_running, prefix}

-- `claimable` at the time `now`.
abbrev pub is_claimable : ℕ → Task → Bool
is_claimable now t =
    (is_queued t.status && leb t.available_at now)
    || (is_running t.status && some_and t.lease_until (λ until. leb until now))

-- Equality of two nullable columns, where `== None` reads IS NULL.
abbrev pub same_token : Option ℕ → Option ℕ → Bool
same_token none none = true
same_token (some a) (some b) = eqb a b
same_token _ _ = false

-- The rows that `_locked_task` selects.
abbrev pub is_leased : ℕ → Option ℕ → Task → Bool
is_leased id token t = eqb t.id id && (is_running t.status && same_token t.lease_token token)

-- The join with the task's domain.
abbrev pub domain_of : Database → Task → Option Domain
domain_of db t = find (λ d. eqb d.id t.domain_id) db.domains

abbrev pub has_domain : Database → Task → Bool
has_domain db t = elim (domain_of db t) [ none ↦ false | some d ↦ true ]

-- The row with the least creation time, the first of them if there are several.
unfoldable pub older : Task → Option Task → Task
older t none = t
older t (some u) = if leb t.created_at u.created_at then t else u

unfoldable pub oldest : (Task → Bool) → List Task → Option Task
unfolding older
oldest p [] = none
oldest p (t ∷ ts) = let rest = oldest p ts in if p t then some (older t rest) else rest

-- The SELECT of `claim`.
unfoldable pub claim_candidate : ℕ → Database → Option Task
claim_candidate now db = oldest (λ t. is_claimable now t && has_domain db t) db.tasks

abbrev pub claimed : ℕ → String → ℕ → ℕ → Task → Task
claimed token worker now until t = record t {
  status = running;
  lease_token = some token;
  lease_owner = some worker;
  lease_until = some until;
  started_at = some (or_else t.started_at now);
  updated_at = now;
  attempt_count = t.attempt_count + 1;
}

-- The conditional UPDATE ... RETURNING of `claim`.
unfoldable pub claim_write : ℕ → ℕ → String → ℕ → ℕ → Database → Option Task × Database
claim_write id token worker now until db =
    let wanted = λ (t : Task). eqb t.id id && is_claimable now t in
    elim (find wanted db.tasks) [
      | none ↦ (none, db)
      | some t ↦ (
        some (claimed token worker now until t),
        record db { tasks = update wanted (claimed token worker now until) db.tasks },
      )
    ]

-- `claim`, with the token that `uuid4` returned.
unfoldable pub claim : ℕ → String → ℕ → ℕ → Database → Option Task × Database
claim token worker now until db = elim (claim_candidate now db) [
  | none ↦ (none, db)
  | some t ↦ claim_write t.id token worker now until db
]

-- `_locked_task`. The lock on the parent domain orders transactions and writes nothing.
unfoldable pub locked_task : ℕ → Option ℕ → Database → Option Task
locked_task id token db = find (is_leased id token) db.tasks

-- The flush of the ORM writes the row that was locked.
abbrev pub write_task : ℕ → Option ℕ → (Task → Task) → Database → Database
write_task id token f db = record db { tasks = update (is_leased id token) f db.tasks }

abbrev pub renewed : ℕ → ℕ → Task → Task
renewed until at t = record t { lease_until = some until; updated_at = at }

unfoldable pub heartbeat : ℕ → Option ℕ → ℕ → ℕ → Database → Bool × Database
heartbeat id token until at db = elim (locked_task id token db) [
  | none ↦ (false, db)
  | some t ↦ (true, write_task id token (renewed until at) db)
]

abbrev pub deferred : ℕ → ℕ → String → Task → Task
deferred at retry_at message t = record t {
  status = queued;
  attempt_count = t.attempt_count - 1;
  available_at = retry_at;
  error_code = some "rate_limited";
  error_message = some (prefix 512 message);
  lease_token = none;
  lease_owner = none;
  lease_until = none;
  updated_at = at;
}

unfoldable pub defer_rate_limited : ℕ → Option ℕ → ℕ → ℕ → String → Database → Bool × Database
defer_rate_limited id token at retry_at message db = elim (locked_task id token db) [
  | none ↦ (false, db)
  | some t ↦ (true, write_task id token (deferred at retry_at message) db)
]
