-- ===== src/Mappings.antt =====
-- src/input/mapping.c: the files that say which button of a gamepad is which.
pub mod Parse
pub mod Print
pub mod Scan
pub mod Indices
pub mod Groups
pub mod RoundTrip
mod Tests
