-- ===== src/Sdl.antt =====
-- src/input/sdl.c: keyboard, mouse, touch and game controllers of the desktop platforms.
pub mod Host
pub mod Vk
pub mod Pads
pub mod Event
pub mod Request
pub mod Slots
pub mod Table
pub mod Sound
pub mod Cases
pub mod Session
pub mod Quit
pub mod Known
pub mod Range
pub mod Refine
mod Sample
mod Tests
