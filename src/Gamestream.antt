-- ===== src/Gamestream.antt =====
-- libgamestream: the control protocol with the host (libgamestream/client.c, errors.h, client.h).
pub mod Text
pub mod Server
pub mod Info
pub mod Pair
pub mod App
pub mod Hex
pub mod Keeps
pub mod Exchange
pub mod Pairing
pub mod Reads
pub mod Status
pub mod Launch
mod Tests
