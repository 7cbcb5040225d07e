-- ===== src/Gate.antt =====
-- The release gates of the milestones 4 to 11, scripts/gate_m4.py to scripts/gate_m11.py.
pub mod Comments
pub mod Make
pub mod Report
pub mod Pattern
pub mod Suite
pub mod McpHttp
pub mod Checks
mod Tests
pub mod McpStdio
pub mod Console
pub mod Routing
pub mod Provider
pub mod Listener
pub mod Storage
