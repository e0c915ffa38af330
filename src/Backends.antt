-- ===== src/Backends.antt =====
-- src/backends: protocols, connections, and what the queue asks of a backend.
pub mod Protocol
pub mod Identity
pub mod Entry
