-- ===== src/Verifier.antt =====
-- The verifier package.
pub mod ClaimChecks
pub mod WellFormed
pub mod Bearer
pub mod Build
pub mod Verify
pub mod Outcomes
pub mod Failures
pub mod Trust
