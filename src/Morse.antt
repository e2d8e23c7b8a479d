-- ===== src/Morse.antt =====
-- The Morse programs: the player's encoder and the recorder's decoder.
pub mod Code
pub mod Encode
pub mod Decode
pub mod Judge
pub mod RoundTrip
pub mod Process
pub mod Sound
pub mod Play
mod Tests
