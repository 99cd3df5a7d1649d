-- ===== src/Oem/Parse.antt =====
-- `OemEphemeris::parse` of crates/gateway/src/oem.rs: the lines of a message.
pub mod Epoch
pub mod Segment
pub mod Lines
pub mod Sound
pub mod Close
pub mod Read
