-- ===== src/Checks.antt =====
-- The theorems at concrete inputs: bitmaps, addresses, a conversation of two peers, a stream,
-- slices, timers, stubs, and groups of slices.
pub mod Bitmaps
pub mod Sockets
pub mod Peers
pub mod Streams
pub mod Slicing
pub mod Timing
pub mod Pools
pub mod Groups
pub mod Sends
pub mod Archives
pub mod Values
pub mod Calls
pub mod Exchanges
