-- ===== src/Tests.antt =====
-- The theorems at concrete inputs, by part of the program.
mod Data
mod TaskRuns
mod TaskWrites
mod GateRuns
mod OutboxRuns
mod OAuthRuns
mod DomainRuns
mod AuthData
mod AuthRuns
mod QuotaRuns
mod SchedulerRuns
mod RecordRuns
mod LookupRuns
mod StatusRuns
