-- ===== src/Finalize.antt =====
-- sdks/python/src/wardex_sdk/_finalize.py: the bounded queue of jobs whose parse is deferred.
pub mod Queue
pub mod Drain
pub mod Threads
pub mod Room
pub mod Running
pub mod Places
pub mod Leftovers
mod Tests
