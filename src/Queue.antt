-- ===== src/Queue.antt =====
-- src/transfer: the transfer queue. The data and the operations stand in the first modules, the
-- proofs in those below them.
pub mod Item
pub mod Panes
pub mod State
pub mod Lookup
pub mod Execute
pub mod Dispatch
pub mod Enqueue
pub mod Controls
pub mod Replies
pub mod Signals
pub mod Store
pub mod Persist
pub mod Claims
pub mod Events
pub mod Runs
pub mod Tests
pub mod Examples
pub mod Restart
pub mod Continued
pub mod Resume
pub mod Fuel
pub mod Keys
pub mod Pools
pub mod Rows
