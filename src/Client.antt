-- ===== src/Client.antt =====
-- sdks/python/src/wardex_sdk/_client.py: the client's buffer, its drains and its close. The threads
-- that capture while a batch is exported are an argument of the drain.
pub mod State
pub mod Capture
pub mod Drain
pub mod Measures
pub mod Conservation
pub mod Sent
pub mod Drained
pub mod Bounds
pub mod Returned
pub mod Order
pub mod Closed
mod Tests
