-- ===== src/Assembly/PatchSet.antt =====
-- sdks/python/src/wardex_sdk/_assembly/_patchset.py: patches of attributes, and their restore.
pub mod Patches
pub mod Layers
pub mod Foreign
mod Tests
