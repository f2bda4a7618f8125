-- ===== src/Frontend.antt =====
-- The frontend service: frontend/internal.
pub mod Token
pub mod Errors
pub mod Clients
pub mod Service
pub mod Laws
pub mod RoundTrip
pub mod Handler
pub mod Failures
