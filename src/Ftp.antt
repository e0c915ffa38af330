-- ===== src/Ftp.antt =====
-- src/backends/FtpBackend.cpp: what it reads from the control connection and what it writes there.
pub mod Qt
pub mod Reply
pub mod Address
pub mod Replies
pub mod Addresses
pub mod Mlsd
pub mod Listed
mod Tests
