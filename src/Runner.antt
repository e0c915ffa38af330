-- ===== src/Runner.antt =====
-- The execution of a script: src/cli/ScriptRunner.h and ScriptRunner.cpp (under src).
pub mod State
pub mod Operations
pub mod Signals
mod Orderly
mod Commands
mod Execution
mod Outcome
mod Barriers
mod Hangs
mod Tests
