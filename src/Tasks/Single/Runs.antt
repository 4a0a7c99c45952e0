-- ===== src/Tasks/Single/Runs.antt =====
-- The invariant over every interleaving of transactions.
use domains_manager.Models.{Database}
use domains_manager.Tasks.Steps.{
  Step, Reach, adds, claims, writes, renews, defers, succeeds, stays_fresh, fails, here, next,
}
use domains_manager.Tasks.Single.Defs.{IsSingle}
use domains_manager.Tasks.Single.Adds.{add_task-IsSingle}
use domains_manager.Tasks.Single.Writes.{
  claim-IsSingle, claim_write-IsSingle, heartbeat-IsSingle, defer-IsSingle,
  complete_success-IsSingle, complete_if_fresh-IsSingle, complete_failure-IsSingle,
}

pub Step-IsSingle : {db db' : Database} → Step db db' → IsSingle db → IsSingle db'
Step-IsSingle (adds fresh task key print expires t e) h =
    add_task-IsSingle fresh task key print expires _ e h
Step-IsSingle {db} (claims token worker now until e) h =
    rw e (claim-IsSingle token worker now until db h)
Step-IsSingle {db} (writes id token worker now until e) h =
    rw e (claim_write-IsSingle id token worker now until db h)
Step-IsSingle {db} (renews id token until at e) h = rw e (heartbeat-IsSingle id token until at db h)
Step-IsSingle {db} (defers id token at retry_at message e) h =
    rw e (defer-IsSingle id token at retry_at message db h)
Step-IsSingle {db} (succeeds p fresh check id token at duration s due o e) h =
    complete_success-IsSingle p fresh check id token at duration s due db e h
Step-IsSingle {db} (stays_fresh id token at fresh_after until due message b e) h =
    complete_if_fresh-IsSingle id token at fresh_after until due message db e h
Step-IsSingle {db} (fails p fresh check id token at duration code message retry e) h =
    rw e (complete_failure-IsSingle p fresh check id token at duration code message retry db h)

-- From a database in which no domain has two queued or running tasks, every sequence of
-- transactions of the task repository (adding, claiming, renewing, deferring, completing), by any
-- number of workers in any order, leads to such a database.
pub Reach-IsSingle : {db db' : Database} → IsSingle db → Reach db db' → IsSingle db'
Reach-IsSingle h here = h
Reach-IsSingle h (next r s) = Step-IsSingle s (Reach-IsSingle h r)
