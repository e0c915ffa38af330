-- ===== src/Queue/Rows.antt =====
-- The rows of the queue, their ids and the scan floor: what every event keeps of them.
pub mod Closed
pub mod Scans
pub mod Operations
pub mod Replies
pub mod Signals
pub mod Floor
pub mod Whole
pub mod Ids
