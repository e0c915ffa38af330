-- ===== src/Sites.antt =====
-- What the program remembers of servers: src/backends/ConnectionRequest.h, ConnectionHistory.cpp and
-- SavedSite.cpp.
pub mod Requests
pub mod History
pub mod Latest
pub mod Recent
pub mod Stored
pub mod Store
pub mod Unique
mod Tests
