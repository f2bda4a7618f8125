-- ===== src/History.antt =====
-- The history service: history/internal.
pub mod Models
pub mod Backend
pub mod Postgres
pub mod TimerStore
pub mod World
pub mod System
pub mod Recovery
pub mod Races
pub mod Handler
pub mod Service
pub mod TimerProcessor
pub mod Changes
pub mod Overlap
