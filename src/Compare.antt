-- ===== src/Compare.antt =====
-- Comparing two directories and synchronising them: compare/ of the program.
pub mod Comparer
pub mod Coverage
pub mod Sync
pub mod Safety
pub mod Order
pub mod Same
pub mod Finishing
pub mod Tests
