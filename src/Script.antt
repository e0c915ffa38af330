-- ===== src/Script.antt =====
-- The script language of the command line: src/cli (under src).
pub mod Tokens
pub mod Commands
pub mod RoundTrip
pub mod Accepted
pub mod Numbered
mod Examples
