-- ===== src/History/Service.antt =====
-- history/internal/service: one action for each handler of history/internal/ports/inbound.go.
pub mod Queued
pub mod Load
pub mod Workflow
pub mod Activity
pub mod Heartbeat
pub mod Attributes
pub mod Commands
pub mod Rules
pub mod Batch
pub mod Evolution
pub mod Reads
pub mod Errors
pub mod Keeps
pub mod Counts
pub mod Retries
pub mod Started
pub mod Start
pub mod Refusals
pub mod Race
pub mod Effects
