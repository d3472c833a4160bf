-- ===== src/Spans.antt =====
-- What a finished span is: the enumerations of sdks/python/src/wardex_sdk/_enums.py and the records
-- of _types.py.
pub mod Enums
pub mod Attributes
pub mod Span
pub mod Sizes
