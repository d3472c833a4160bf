-- ===== src/Scope.antt =====
-- sdks/python/src/wardex_sdk/_scope.py: scopes and their merge in three layers.
pub mod Layers
pub mod Merge
mod Tests
