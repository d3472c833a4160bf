-- ===== src/Assembly/Builder.antt =====
-- sdks/python/src/wardex_sdk/_assembly/_builder.py: the draft of a span and what it is finished to.
pub mod Integrity
pub mod Draft
pub mod Setters
pub mod Finish
pub mod Manual
pub mod Ready
pub mod Distinct
pub mod Markers
mod Tests
