-- ===== src/Assembly/Units.antt =====
-- sdks/python/src/wardex_sdk/_assembly/_units.py and _forgotten.py: the registry of the units of work
-- that a host has open, each with its span, and the index by which the wire finds them.
pub mod State
pub mod Forgotten
pub mod Tables
pub mod Close
pub mod Aliases
pub mod Ambience
pub mod Spans
pub mod Edges
pub mod Open
pub mod Pins
pub mod Detached
pub mod Sound
pub mod Grown
pub mod Collecting
pub mod Gone
pub mod Paid
pub mod Alike
pub mod Evicting
pub mod Entering
pub mod Rekeying
pub mod Binding
pub mod Opening
pub mod Attaching
pub mod Entered
pub mod Opens
pub mod Acts
pub mod SpanTables
pub mod SpanActs
pub mod Life
pub mod Outcomes
pub mod Fewer
pub mod Bounded
pub mod Capacity
pub mod Limits
pub mod Rooms
pub mod Climbs
mod Tests
