-- ===== src/Trans.antt =====
-- isu-net/src/trans_core.cpp: the datagram service with acknowledgements, retransmission and a
-- window. `State` has the data, `Send`, `Receive` and `Retry` the operations.
pub mod State
pub mod Send
pub mod Receive
pub mod Retry
pub mod Seen
pub mod Keeping
pub mod Effects
pub mod Runs
pub mod Backoff
pub mod GiveUp
pub mod Arrivals
