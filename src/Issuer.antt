-- ===== src/Issuer.antt =====
-- The issuer package.
pub mod Model
pub mod Validate
pub mod SignedClaims
pub mod Build
pub mod Derive
pub mod Issue
pub mod Chain
pub mod Publish
pub mod KeyFiles
