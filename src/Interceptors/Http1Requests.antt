-- ===== src/Interceptors/Http1Requests.antt =====
-- sdks/python/src/wardex_sdk/_interceptors/_http1_requests.py: which request an HTTP/1 reply answers.
-- The parser of requests is the native extension's, a parameter.
pub mod Readings
pub mod Side
pub mod Issued
pub mod Origin
pub mod Paired
pub mod Choice
mod Tests
