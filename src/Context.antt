-- ===== src/Context.antt =====
-- sdks/python/src/wardex_sdk/context/: what crosses a process boundary.
pub mod W3c
