-- ===== src/Http.antt =====
-- The HTTP reader of the test suites, tests/http_harness.py, on the bytes that a connection gave.
pub mod Number
pub mod Slice
pub mod Chunked
pub mod Reader
pub mod Request
mod Tests
