-- ===== src/Interceptor.antt =====
-- The interceptor package.
pub mod Model
pub mod Authorize
pub mod Scopes
pub mod Decisions
pub mod Refusals
