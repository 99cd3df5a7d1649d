-- ===== src/Lib.antt =====
-- Verification of chronus-gateway: the telemetry path of the gateway, from the octets of a datagram
-- to validated Space Packets.
--
-- The program. The gateway (crates/gateway) receives UDP datagrams, takes Space Packets out of them,
-- either one per datagram or out of TM Transfer Frames (crates/gateway/src/frames.rs), parses and
-- validates each packet (crates/gateway/src/ccsds.rs) and streams it to its clients, with a bounded
-- history of what it sent (crates/gateway/src/history.rs) and a store of receiver measurements beside
-- it (crates/gateway/src/rf.rs). A public sandbox (crates/chronus-demo-server) runs one simulation for
-- each visitor it admits.
--
-- The files.
-- - Prelude, Words: shared notation, list and result lemmas, octets, big-endian words, exclusive or.
-- - Frames/Crc: `crc16_ccitt`. Frames/Randomizer: `PN_SEQUENCE` and `ccsds_randomize`.
--   Frames/Header: `TmFrameHeader`. Frames/Parse: `parse_tm_frame` with its errors.
-- - Frames/Stats: `FramingStats`. Frames/Deframer: `VcState`, `TmDeframer`, `accept`, `handle_frame`,
--   `drain_packets`. Frames/Stream: `push`, `push_stream` and `find_asm`. The callback `emit` of the
--   source appends to the list `emitted`.
-- - Frames/Builder: `TmFrameBuilder`, `idle_packet` and `to_cadu`.
-- - Ccsds: `parse_telemetry`, the accessors of `TelemetryFrame` and the synthetic encoders. The header
--   decoder of the crate `spacepackets` is a parameter; `DecodesHeaders` states that it reads the
--   fields of the standard.
-- - History: the ring, `record` and `query` of crates/gateway/src/history.rs; the operations of
--   serde_json, chrono and f64 that it calls are the record `Json`. History/File: the writer thread
--   and the history file, one batch at a time; whether a write succeeds is an argument.
--   History/Snapshot: the builder of queries, the snapshot and `close`.
-- - Sessions: admission, the guards and the command limit of the sandbox server,
--   crates/chronus-demo-server/src/server.rs, as a step relation (Sessions/Server); an admission and
--   the drop of a guard are atomic steps. Times are
--   milliseconds; addresses and origins are numbers.
-- - Rf: samples, their datagrams and the bounded store of crates/gateway/src/rf.rs; serde_json and the
--   test for finite numbers are the record `Serde`. Times are nanoseconds. Rf/Build: the builders and
--   the snapshot. Frames/Snapshot: the snapshot of the framing counters.
-- - Integers: the `i64` times of the source.
-- - Floats: the operations of f64. Hil: the payload layout of crates/gateway/src/hil_tm.rs.
-- - Validate: the checks of crates/gateway/src/validate.rs and the flags they raise (Validate/Checks).
-- - Time: the time codes and the instant of physics, crates/gateway/src/time.rs; `chrono` is the
--   record `Chrono`. Propagator: the SGP4 backend and the throttled front-end of
--   crates/gateway/src/propagator.rs; the crate `ephemerust` is the record `Ephemerust`.
-- - Config: the station configuration and its checks, crates/gateway/src/config/mod.rs.
-- - Gateway: the shared state (crates/gateway/src/state.rs, metrics.rs) and the message; Gateway/Process:
--   `process_inner` of crates/gateway/src/http.rs; Gateway/Pipeline: crates/gateway/src/pipeline.rs.
--   Clock, serializer, base64 and tracking backend are the record `World`.
-- - Frames/Link: the framer and the deframer at the two ends of an error-free link. Split: a stream of
--   packets and the pointers into it; State, Step: what the two ends have to do with each other;
--   Running: sessions of packing and flushing on several channels. Every frame goes at once through
--   `handle_frame`.
-- - Text: the operations of Rust's `str` that the parsers call, on lists of code points.
-- - Oem: crates/gateway/src/oem.rs. Oem/Parse: the parser (Epoch: `parse_epoch`; Segment: `kvn` and the
--   segment builder; Lines: the loop over the lines); Oem/Interpolate: the interpolation, the choice of
--   the segment and the tracking state. chrono, the leap seconds of `ephemerust` and the parsing of
--   floating-point numbers are the record `OemCalls`, the rotations the record `Rotations`.
-- - Diagnose: the health report of crates/gateway/src/diagnose.rs and state.rs; a finding is its code
--   and its severity, and sums and products of counters wrap at 2^64.
-- - Http: the query string of the history request and its answer, crates/gateway/src/http.rs; the
--   parsers of f64 and of RFC 3339 are the record `HttpCalls`.
-- - Ingest: the loop over the datagram socket, crates/gateway/src/ingest.rs, over the list of events
--   that `select!` takes.
-- A file under one of these proves what its name says of it: Frames/Header/RoundTrip,
-- Frames/Deframer/Accept, Frames/Stream/Split and so on. The Tests files run the definitions on
-- values of the repository's unit tests and apply the theorems to concrete inputs.
--
-- Numbers, bounds and fuel. Octets, words and lengths are natural numbers; masks and shifts are
-- remainders, quotients and multiples of powers of two, and the wrap-around of 8-bit counters and
-- 16-bit fields is written out. Counters wrap at 2^64. The loop of `drain_packets` runs on the length
-- of the buffer, since each round removes at least seven octets; the loop of `push_stream` runs on one
-- more than the length of the stream, since each round that goes on removes at least one octet, and
-- the loop of `pack` on the octets queued, since a frame holds at least one.
--
-- Not modelled: sockets, threads and timers, HTTP routing beyond the history request, JSON itself, the
-- texts of findings and the explanations of errors, the loading of configuration files, and the
-- simulations of the sandbox and of the HIL tools. Floating-point operations are the record `Float`:
-- nothing is said of their accuracy.
pub mod Prelude
pub mod Words
pub mod Frames
pub mod Ccsds
pub mod Integers
pub mod History
pub mod Sessions
pub mod Rf
pub mod Floats
pub mod Hil
pub mod Validate
pub mod Time
pub mod Propagator
pub mod Gateway
pub mod Config
pub mod Text
pub mod Oem
pub mod Ingest
pub mod Diagnose
pub mod Http
