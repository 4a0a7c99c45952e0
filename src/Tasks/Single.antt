-- ===== src/Tasks/Single.antt =====
-- At most one task of a domain is queued or running, whatever the repository does.
pub mod Defs
pub mod Writes
pub mod Adds
pub mod Runs
pub use Defs.{IsSingle}
