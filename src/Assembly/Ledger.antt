-- ===== src/Assembly/Ledger.antt =====
-- sdks/python/src/wardex_sdk/_assembly/_ledger.py: the drop ledger. The module's globals are one
-- record, and each function takes it and returns it changed. The operations are atomic here: a
-- call is told by `free` what `_free()` answers, that is, whether nobody else holds the fold.
pub mod State
pub mod Wire
pub mod Fold
pub mod Operations
pub mod Amounts
pub mod Balance
pub mod Identity
pub mod Cut
pub mod Steps
pub mod Run
pub mod Bounds
pub mod Failures
pub mod Recorded
mod Tests
