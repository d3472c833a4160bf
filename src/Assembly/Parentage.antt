-- ===== src/Assembly/Parentage.antt =====
-- sdks/python/src/wardex_sdk/_assembly/_parentage.py: which parent a span gets, on what evidence.
pub mod Confidence
pub mod Resolve
pub mod Tiers
pub mod Edges
pub mod Observed
mod Tests
