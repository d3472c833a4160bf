-- ===== src/Interceptors.antt =====
-- sdks/python/src/wardex_sdk/_interceptors/: what the SDK reads off sockets.
pub mod Http1Requests
