-- ===== src/Jwtgen.antt =====
-- The jwtgen package: minting tokens for tests, under one signing key.
pub mod Unchecked
pub mod Generator
pub mod Issue
pub mod Generate
pub mod Signing
pub mod Carries
pub mod Minted
pub mod Generated
