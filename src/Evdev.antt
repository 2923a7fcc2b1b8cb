-- ===== src/Evdev.antt =====
-- src/input/evdev.c: the gamepads, keyboards, mice and touchscreens of the embedded platforms.
pub mod Host
pub mod Device
pub mod Axis
pub mod Output
pub mod Keys
pub mod Abs
pub mod Event
pub mod Parms
pub mod Assign
pub mod Read
pub mod Remove
pub mod Rumble
pub mod Safety
pub mod Flush
pub mod Quit
pub mod Buttons
pub mod Sample
mod Tests
mod QuitTests
mod TableTests
