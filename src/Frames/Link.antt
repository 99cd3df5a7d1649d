-- ===== src/Frames/Link.antt =====
-- The framer and the deframer of crates/gateway/src/frames.rs at the two ends of one virtual
-- channel: `TmFrameBuilder` into `TmDeframer::handle_frame`.
pub mod Split
pub mod Pointer
pub mod Field
pub mod Frame
pub mod Emit
pub mod State
pub mod Step
pub mod Queue
pub mod Compose
pub mod Pack
pub mod RoundTrip
pub mod Flush
pub mod Fresh
pub mod Traffic
pub mod Session
pub mod Running
pub mod Tests
