-- ===== src/Tasks/Steps.antt =====
-- The transactions that API handlers, the scheduler and any number of workers commit against the
-- task tables, in any order: one step for each method of the repository that writes.
use domains_manager.Base.{ℕ, String, Bool, Option, ◌≡◌}
use domains_manager.Base.Result.{ok}
use domains_manager.Models.{Task, Check, Database, Snapshot}
use domains_manager.Tasks.Leases.{claim_write, claim, heartbeat, defer_rate_limited}
use domains_manager.Tasks.Enqueue.{add_task}
use domains_manager.Tasks.Snapshots.{Platform}
use domains_manager.Tasks.Notices.{Fresh}
use domains_manager.Tasks.Complete.{complete_success, complete_if_fresh, complete_failure}

pub data Step (db db' : Database) : Type 0 where
  adds :
      (fresh : ℕ) (task : Task) (key print : String) (expires : ℕ) (t : Task)
      → add_task fresh task key print expires db ≡ ok (t, db')
      → Step db db'
  claims :
      (token : ℕ) (worker : String) (now until : ℕ)
      → db' ≡ (claim token worker now until db).1
      → Step db db'
  -- The second statement of a claim whose first one read an older database.
  writes :
      (id token : ℕ) (worker : String) (now until : ℕ)
      → db' ≡ (claim_write id token worker now until db).1
      → Step db db'
  renews :
      (id : ℕ) (token : Option ℕ) (until at : ℕ)
      → db' ≡ (heartbeat id token until at db).1
      → Step db db'
  defers :
      (id : ℕ) (token : Option ℕ) (at retry_at : ℕ) (message : String)
      → db' ≡ (defer_rate_limited id token at retry_at message db).1
      → Step db db'
  succeeds :
      (p : Platform) (fresh : Fresh) (check id : ℕ) (token : Option ℕ) (at duration : ℕ)
      (s : Snapshot) (next : ℕ) (o : Option Check)
      → complete_success p fresh check id token at duration s next db ≡ ok (o, db')
      → Step db db'
  stays_fresh :
      (id : ℕ) (token : Option ℕ) (at fresh_after until next : ℕ) (message : String) (b : Bool)
      → complete_if_fresh id token at fresh_after until next message db ≡ ok (b, db')
      → Step db db'
  fails :
      (p : Platform) (fresh : Fresh) (check id : ℕ) (token : Option ℕ) (at duration : ℕ)
      (code message : String) (retry : Option ℕ)
      → db' ≡ (complete_failure p fresh check id token at duration code message retry db).1
      → Step db db'

pub data Reach (db : Database) : Database → Type 0 where
  here : Reach db db
  next : {db' db'' : Database} → Reach db db' → Step db' db'' → Reach db db''
