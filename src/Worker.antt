-- ===== src/Worker.antt =====
-- sdks/python/src/wardex_sdk/_worker.py: the life of the batch worker's thread.
pub mod Spawn
pub mod Life
pub mod Standing
pub mod Inside
pub mod Single
pub mod Stopped
pub mod Forked
mod Tests
