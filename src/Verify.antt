-- ===== src/Verify.antt =====
-- src/transfer/ChecksumVerifier.cpp: whether a finished transfer has the same bytes on both sides.
pub mod State
pub mod Operations
pub mod Counting
pub mod Accounts
pub mod Crashed
pub mod Answers
pub mod Verdicts
mod Tests
