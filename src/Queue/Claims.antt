-- ===== src/Queue/Claims.antt =====
-- Who holds which backend and which destination: the invariant of m_active in
-- transfer/TransferManager.h, and that the operations of the queue keep it. The primary backends of
-- the panes (`primary`) and the reservation keys (`key_of`) do not change meanwhile.
pub mod Lists
pub mod Keys
pub mod Moves
pub mod Invariant
pub mod Entries
pub mod Dispatching
pub mod Crash
pub mod Binding
pub mod Scanning
pub mod Adding
pub mod Cancelling
pub mod Controlling
pub mod Pending
pub mod Answering
pub mod Signalled
pub mod Signalling
pub mod Moved
pub mod Restoring
pub mod Stepping
pub mod Reached
