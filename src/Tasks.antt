-- ===== src/Tasks.antt =====
-- The queue of domain refresh tasks: domainsmanager_persistence/tasks.py, and the service of
-- domainsmanager_application/tasks.py that drives it.
pub mod Leases
pub mod Enqueue
pub mod Snapshots
pub mod Notices
pub mod Schedule
pub mod Complete
pub mod Service
pub mod Steps
pub mod Single
pub mod Fencing
pub mod Claims
pub mod Replays
