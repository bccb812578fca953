-- ===== src/Jwks.antt =====
-- The jwks package.
pub mod Model
pub mod Fetch
pub mod Lookup
pub mod Documents
pub mod Refreshing
pub mod Healthy
pub mod Serving
pub mod Answers
pub mod Resting
pub mod Reachable
