-- ===== src/Frames.antt =====
-- crates/gateway/src/frames.rs: TM Transfer Frames, from received datagrams to Space Packets.
pub mod Crc
pub mod Randomizer
pub mod Header
pub mod Parse
pub mod Stats
pub mod Snapshot
pub mod Deframer
pub mod Stream
pub mod Builder
pub mod Link
pub mod Tests
