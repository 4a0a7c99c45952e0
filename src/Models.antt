-- ===== src/Models.antt =====
-- domainsmanager_persistence/models.py: the rows of the tables that the modelled repositories
-- read and write, and the database as the record of those tables. An instant is a number of
-- microseconds in UTC, so `as_utc` is the identity; a duration is such a number too. A UUID is a
-- number in the order of its text.
mod Values
mod Jobs
mod Managed
mod Notices
pub use Values.*
unfoldable pub use Values.{prefix, json_beq}
pub use Jobs.*
pub use Managed.*
pub use Notices.*
use domains_manager.Base.{String, List}
use domains_manager.Base.Dict.{Dict}

pub record Database : Type 0 where
  pub tasks : List Task
  pub domains : List Domain
  pub checks : List Check
  pub idempotency : List Idempotency
  pub rules : List Rule
  pub outbox : List Outbox
  pub settings : Dict String String
