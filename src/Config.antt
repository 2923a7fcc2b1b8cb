-- ===== src/Config.antt =====
-- src/config.c: the options of the command line and of the configuration files.
pub mod Types
pub mod Path
pub mod Argument
pub mod File
pub mod Defaults
pub mod Number
pub mod Line
pub mod Keys
pub mod Saved
pub mod RoundTrip
pub mod Kept
pub mod Fits
pub mod Search
mod Tests
