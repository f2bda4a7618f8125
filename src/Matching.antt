-- ===== src/Matching.antt =====
-- The matching service: matching/internal.
pub mod Models
pub mod TaskQueue
pub mod Service
pub mod Delivery
pub mod Order
