-- ===== src/Tests.antt =====
-- Tests, and the theorems at concrete inputs.
mod Fixtures
mod Tokens
mod Parsing
mod Generating
mod Agreeing
mod Connecting
mod Rotating
mod Verifying
mod Issuing
mod Deciding
mod Caching
mod Publishing
mod KeyFiles
