-- ===== src/Hub.antt =====
-- sdks/python/src/wardex_sdk/_hub.py: the current scope, and scopes that are taken down.
pub mod Retired
pub mod Chains
pub mod TakeDown
mod Tests
