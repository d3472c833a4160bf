-- ===== src/Assembly.antt =====
-- sdks/python/src/wardex_sdk/_assembly/: what the SDK loses, and what it makes of what it keeps.
pub mod DropReasons
pub mod Integrity
pub mod Ledger
pub mod Parentage
pub mod PatchSet
pub mod Vocabulary
pub mod Builder
pub mod Units
