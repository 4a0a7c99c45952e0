-- ===== src/Lib.antt =====
-- DomainsManager watches domain names: users register domains, workers refresh what registries say
-- about them, a scheduler queues the periodic refreshes, and changes, failures and expirations
-- become notifications that other workers deliver. This library models the part of it that many
-- processes share: the tables of accounts, refresh tasks, domains, checks and messages, with the
-- transactions on them, and the gates, quotas and schedules around them.
--
-- The parts, and where they are modelled:
--   Base: tables as lists of rows with find, select and update (SELECT and UPDATE), dictionaries in
--     insertion order, results with the exceptions of the program as errors, Boolean tests.
--   Models: the rows of domainsmanager_persistence/models.py that the other parts read or write, and
--     the database as the record of those tables.
--   Auth: accounts, sessions and tokens. Users and Sessions are the repositories of
--     domainsmanager_persistence/auth.py, Security the user names and tokens of
--     domainsmanager_application/security.py, Service and its children AuthService
--     (domainsmanager_application/services.py; Rotation has the refresh tokens, Entry register, login
--     and the first administrator, Changes the rest with `set_ban_state` and
--     `revoke_user_session` of domainsmanager_api/api/admin.py). Writes has what transactions are made
--     of, Steps the transactions of AuthService, of OAuthService, of bans and of revocations in any
--     order, Parts and Linked the writes of each, Sequences what they all keep.
--   OAuth: external identities. The repository of domainsmanager_persistence/oauth.py, and the
--     transactions of OAuthService (domainsmanager_application/oauth.py) in Service and Callback.
--   Tasks: SqlAlchemyTaskRepository (domainsmanager_persistence/tasks.py) and RefreshTaskService
--     (domainsmanager_application/tasks.py). Enqueue is `add`, Leases `claim`, `heartbeat`,
--     `defer_rate_limited` and `_locked_task`, Complete the three completions, Snapshots and Notices
--     what they read and queue, Schedule the arithmetic of the next check, Service `enqueue` and
--     `run_once`. Steps has one step for each transaction that writes tasks, and sequences of steps.
--   Domains: the rest of SqlAlchemyDomainRepository (domainsmanager_persistence/domains.py), and
--     DomainService (domainsmanager_application/domains.py) in Service, which queues its tasks with
--     `add`. Later has the transactions of DomainService in any order.
--   Scheduler: DomainSchedulerService (domainsmanager_application/scheduler.py) with `claim_due` and
--     `spread_due` of domainsmanager_persistence/domains.py. It queues its tasks with `add`.
--   Outgoing: the outbox half of domainsmanager_persistence/notifications.py, with
--     NotificationOutboxService (domainsmanager_application/notifications.py, Worker) and the cleanup of
--     old messages (domainsmanager_api/cleanup.py, Settled). Its rows are the messages that
--     Tasks/Notices queues.
--   Gates: the endpoint gates of domainsmanager_lookup/store.py, in memory (memory_store.py, Memory)
--     and in the database (domainsmanager_persistence/lookup_store.py, Sql), and their comparison.
--   Records: the records half of MemoryLookupStore (memory_store.py): the current record of a cache key
--     and the refresh leases.
--   Lookup: the lookup of a domain (domainsmanager_lookup). Service and Queries are DomainLookupService
--     (_internal/services/domain_lookup.py) over the record of what it is constructed with, Facade is
--     DomainLookup (facade.py) with its outcomes (types.py), RequestGate is EndpointRequestGate
--     (endpoint_gate.py) over a store of gates, which Gates/Memory is one of, and Stored is
--     StoredDomainResponseCache (_internal/cache/stored.py) over Records. StatusCodes is the registry
--     of _internal/status_codes.py over any codes. Effects has calls that wait
--     and raise, Ends the rules for what they end in.
--   Quotas: MemoryRateLimitStore (domainsmanager_api/rate_limit.py).
--   Tests: the theorems at concrete inputs.
--
-- What the models stand on:
--   An instant is a number of microseconds in UTC and a duration a number of them, so `as_utc` is the
--   identity and the limits of datetime are not reached. A UUID is a number in the order of its
--   text. Readings of the clock, fresh identifiers, random offsets and what a lookup or a delivery
--   returns are arguments; so are the formatting and parsing functions of the standard library (the
--   record Platform). A transaction is one function from database to database, and an error rolls
--   it back. What other processes commit between the transactions of one turn is an argument
--   (`meanwhile`, `during_lookup`), and the sequences of Steps and of Outgoing/Settled interleave
--   the transactions of any number of processes. The claim of a task is two statements, and a
--   conditional write that follows a read of an older database is a step of its own.
--   A row that is locked and then written under its primary key is written where the condition of
--   the lock holds. Unique indexes are the tests that make an INSERT fail: the active task of a
--   domain, the deduplication key of a message, the key of a gate. Of the foreign
--   keys only those of sessions and refresh tokens are modelled; check constraints are not, nor are
--   deletions and what cascades along them, but for the cleanup of old messages (cleanup.py) in
--   Outgoing/Settled: the cleanup of sessions and tokens is not among the Steps of Auth. Hashes, signatures and the methods of texts and UUIDs
--   are functions in the record Crypto.
--   A lookup goes from state to state of an unknown world, in which the store, the clock and all
--   others live; what others do while a call waits is in the state in which it ends. The lookups of one call
--   of the facade, which run side by side, follow one another in the model.
--   Two functions run on fuel. For the loop over batches of Scheduler/Overdue one batch more than
--   there are overdue domains is enough, and for the polls of Lookup/RequestGate one more than fit
--   between the present and the end of the lease. The other loops of the source are over lists or count
--   failures.
--
-- Not modelled: the handlers of the HTTP interface, the OAuth providers, the clients, the parsers and
-- the normalization of names of lookups, the lookup records of the database, the settings, the
-- channels that send messages, the process loops and command lines, migrations, and the web pages.
mod Base
mod Tests
pub mod Models
pub mod Auth
pub mod OAuth
pub mod Tasks
pub mod Domains
pub mod Gates
pub mod Outgoing
pub mod Quotas
pub mod Lookup
pub mod Records
pub mod Scheduler
