-- ===== src/Frames/Tests.antt =====
-- Runs of the models of crates/gateway/src/frames.rs on the values that its unit tests and
-- examples give, and the properties at concrete inputs.
use chronus_gateway.Prelude.{
  ℕ, ◌≡◌, ◌+◌, ◌*◌, [], ◌∷◌, ◌++◌, refl, some, none, true, false, take, inl, arith, ok, err, List,
  Bool, replicate,
}
use chronus_gateway.Words.{Bytes}
use chronus_gateway.Frames.Crc.{crc16_ccitt}
use chronus_gateway.Frames.Randomizer.Sequence.{
  IsPseudorandom, Randomized, ccsds_randomize-Randomized,
}
use chronus_gateway.Frames.Randomizer.{pn_sequence, ccsds_randomize}
use chronus_gateway.Frames.Header.{parse, decode, to_bytes}
use chronus_gateway.Frames.Header.RoundTrip.{IsValid}
use chronus_gateway.Frames.Parse.{
  TmFrame, fecf_mismatch, parse_tm_frame, check_fecf, parse_body, take_ocf, skip_secondary_header,
}
use chronus_gateway.Frames.Parse.Laws.{
  IsAccepted, parse_tm_frame-IsAccepted, parse_tm_frame_one_octet,
}
use chronus_gateway.Frames.Deframer.{
  TmDeframer, FramingConfig, VcState, EmitCtx, Sink, ExtractedPacket, fresh_vc, accept,
  drain_packets, packet_apid, idle_apid, handle_frame, settle, accept_vc, note_mc_count,
  note_vc_count, extract, finish_packet, lose_sync, deliver,
}
use chronus_gateway.Frames.Deframer
use chronus_gateway.Frames.Deframer.Drain.{IsPacket}
use chronus_gateway.Frames.Deframer.Drain.Total.{Drained, drain_packets-Drained}
use chronus_gateway.Frames.Deframer.Reassembly.{starts}
use chronus_gateway.Frames.Deframer.Accept.{IsWanted, Lands, Outcome, accept_in_sync}
use chronus_gateway.Frames.Deframer.Gap.{Restarts, accept_gap}
use chronus_gateway.Frames.Stream.{
  starts_asm, find_asm, push_stream, push, scan, at_marker, scan_all, stream_round,
}
use chronus_gateway.Frames.Stream.Loop.{scan_all_round}
use chronus_gateway.Frames.Stream.Split.{push_stream-append}
use chronus_gateway.Frames.Stream.Bound.{Ok, pushes, resets, run, run-new-Ok}
use chronus_gateway.Frames.Builder.{
  TmFrameBuilder, frame_header, frame, pack, emit_full, emit_frame, queue_packets, pop_before,
  pointer_at, to_cadu,
}
use chronus_gateway.Frames.Builder.Encode.{parse_tm_frame-frame}

-- The check value of CRC-16/IBM-3740 for "123456789".
crc_check_value :
    crc16_ccitt (b'1' ∷ b'2' ∷ b'3' ∷ b'4' ∷ b'5' ∷ b'6' ∷ b'7' ∷ b'8' ∷ b'9' ∷ []) ≡ 0x29B1
unfolding crc16_ccitt
crc_check_value = refl

pn_sequence_start : take 8 pn_sequence ≡ 0xFF ∷ 0x48 ∷ 0x0E ∷ 0xC0 ∷ 0x9A ∷ 0x0D ∷ 0x70 ∷ 0xBC ∷ []
unfolding pn_sequence
pn_sequence_start = refl

randomize_zeros : ccsds_randomize (0 ∷ 0 ∷ 0 ∷ 0 ∷ []) ≡ 0xFF ∷ 0x48 ∷ 0x0E ∷ 0xC0 ∷ []
unfolding ccsds_randomize pn_sequence
randomize_zeros = refl

header_example :
    parse (0x07 ∷ 0x32 ∷ 0x05 ∷ 0x09 ∷ 0x18 ∷ 0x00 ∷ [])
    ≡ some (record {
      version = 0;
      spacecraft_id = 0x073;
      vcid = 1;
      ocf_present = false;
      mc_frame_count = 5;
      vc_frame_count = 9;
      secondary_header = false;
      sync_flag = false;
      first_header_pointer = 0;
    })
unfolding parse decode
header_example = refl

-- A packet of 8 octets, APID 0x100.
abbrev packet : Bytes
packet = 0x01 ∷ 0x00 ∷ 0xC0 ∷ 0x00 ∷ 0x00 ∷ 0x01 ∷ 0xAA ∷ 0xBB ∷ []

packet-IsPacket : IsPacket packet
packet-IsPacket = record { version_zero = refl; whole = refl }

abbrev config : FramingConfig
config = record {
  frame_length = some 16;
  asm = true;
  derandomize = true;
  fecf = true;
  spacecraft_id = some 0x73;
  virtual_channels = none;
}

abbrev builder : TmFrameBuilder
builder = record {
  spacecraft_id = 0x73;
  frame_length = 16;
  fecf = true;
  mc_count = 5;
  vc = replicate 8 (record { frame_count = 9; queued = []; starts = []; emitted = 0 });
}

-- The frame on channel 1 that holds the packet.
abbrev packet_frame : Bytes
unfolding frame to_bytes crc16_ccitt
packet_frame = (frame 1 0 packet builder).1

abbrev ready : TmDeframer
ready = record (Deframer.new config) {
  vcs =
      fresh_vc
      ∷ record { pending = []; in_sync = true; last_count = some 8 }
      ∷ replicate 6 fresh_vc;
}

abbrev next_frame : TmFrame
next_frame = record { header = frame_header builder 1 0; payload = packet; ocf = none }

-- One CADU, cut after three octets: the packet comes out.
cadu_runs :
    (push (take 20 (to_cadu packet_frame true)) (push [] (Deframer.new config))).sink.emitted
    ≡ record { vcid = 1; spacecraft_id = 0x73; bytes = packet } ∷ []
unfolding push push_stream scan_all scan stream_round at_marker find_asm starts_asm handle_frame
    settle parse_tm_frame check_fecf parse_body take_ocf skip_secondary_header crc16_ccitt
    ccsds_randomize pn_sequence parse decode accept accept_vc note_mc_count note_vc_count extract
    finish_packet drain_packets deliver lose_sync to_cadu frame to_bytes
cadu_runs = refl

two_frames : List Bytes
unfolding pack emit_full emit_frame queue_packets pop_before pointer_at frame to_bytes crc16_ccitt
two_frames = (pack 1 (packet ∷ packet ∷ []) builder).1

header-IsValid : IsValid (frame_header builder 1 0)
header-IsValid = omega arith

ccsds_randomize-Randomized_example :
    (bit : ℕ → ℕ) × IsPseudorandom bit
    × Randomized bit packet (ccsds_randomize packet)
    × (ccsds_randomize (ccsds_randomize packet) ≡ packet)
ccsds_randomize-Randomized_example = ccsds_randomize-Randomized packet

parse_tm_frame-frame_example : parse_tm_frame (frame 1 0 packet builder).1 true ≡ ok next_frame
parse_tm_frame-frame_example = parse_tm_frame-frame builder 1 0 packet header-IsValid (omega arith)

wanted : IsWanted ready next_frame
wanted = record { spacecraft = refl; channel = refl; exists = omega arith }

accept_in_sync_example : Outcome ready (accept ready next_frame) next_frame (packet ∷ []) []
accept_in_sync_example = accept_in_sync ready next_frame 8 wanted refl refl refl (
    starts [] (packet ∷ []) (omega arith) (omega arith) refl tt (packet-IsPacket, tt) refl refl
      (inl (omega arith)))

-- The same frame where the channel waits for another counter.
abbrev behind : TmDeframer
behind = record ready {
  vcs =
      fresh_vc
      ∷ record { pending = 0x01 ∷ 0x00 ∷ []; in_sync = true; last_count = some 3 }
      ∷ replicate 6 fresh_vc;
}

accept_gap_example :
    (packets : List Bytes) × (pending : Bytes) × (sync : Bool) × Restarts
      next_frame.header.first_header_pointer next_frame.payload packets pending sync
    × Lands behind (accept behind next_frame) next_frame packets pending sync
accept_gap_example =
    accept_gap behind next_frame 3
      (record { spacecraft = refl; channel = refl; exists = omega arith }) refl (omega arith)

abbrev no_ctx : EmitCtx
no_ctx = record { vcid = 1; spacecraft_id = 0x73 }

drain_packets-Drained_example :
    Drained no_ctx (record fresh_vc { pending = packet ++ 0x01 ∷ []; in_sync = true }) ready.sink
drain_packets-Drained_example =
    drain_packets-Drained no_ctx (record fresh_vc { pending = packet ++ 0x01 ∷ []; in_sync = true })
      ready.sink

abbrev half : Bytes
half = 0xFF ∷ 0x1A ∷ 0xCF ∷ []

abbrev other_half : Bytes
other_half = 0xFC ∷ 0x1D ∷ packet

push_stream-append_example :
    push_stream (some 16) (half ++ other_half) (Deframer.new config)
    ≡ push_stream (some 16) other_half (push_stream (some 16) half (Deframer.new config))
push_stream-append_example = push_stream-append 16 half other_half (Deframer.new config)

scan_all_round_example :
    scan_all 16 half ready ≡ stream_round 16 (find_asm half) half (λ r d. scan_all 16 r d) ready
scan_all_round_example = scan_all_round 16 half ready

marker_found : find_asm (half ++ other_half) ≡ some 1
unfolding find_asm starts_asm
marker_found = refl

run-new-Ok_example : Ok (run (pushes half ∷ resets ∷ pushes other_half ∷ []) (Deframer.new config))
run-new-Ok_example = run-new-Ok config (pushes half ∷ resets ∷ pushes other_half ∷ []) (omega arith)

-- The octets of the frame behind the parser's examples.
abbrev frame_body : Bytes
frame_body = 0x07 ∷ 0x32 ∷ 0x05 ∷ 0x09 ∷ 0x18 ∷ 0x00 ∷ packet

-- The body with an octet of the packet singled out.
abbrev body_front : Bytes
body_front = 0x07 ∷ 0x32 ∷ 0x05 ∷ 0x09 ∷ 0x18 ∷ 0x00 ∷ 0x01 ∷ 0x00 ∷ 0xC0 ∷ 0x00 ∷ 0x00 ∷ 0x01 ∷ []

whole_frame :
    parse_tm_frame ((body_front ++ 0xAA ∷ 0xBB ∷ []) ++ 232 ∷ 27 ∷ []) true ≡ ok next_frame
unfolding parse_tm_frame check_fecf parse_body take_ocf skip_secondary_header crc16_ccitt parse
    decode
whole_frame = refl

parse_tm_frame-IsAccepted_example :
    IsAccepted ((body_front ++ 0xAA ∷ 0xBB ∷ []) ++ 232 ∷ 27 ∷ []) true next_frame
parse_tm_frame-IsAccepted_example =
    parse_tm_frame-IsAccepted ((body_front ++ 0xAA ∷ 0xBB ∷ []) ++ 232 ∷ 27 ∷ []) true whole_frame

parse_tm_frame_one_octet_example :
    parse_tm_frame ((body_front ++ 0xAB ∷ 0xBB ∷ []) ++ 232 ∷ 27 ∷ []) true
    ≡ err (fecf_mismatch (crc16_ccitt (body_front ++ 0xAB ∷ 0xBB ∷ [])) (232 * 256 + 27))
parse_tm_frame_one_octet_example =
    parse_tm_frame_one_octet body_front 0xAA 0xAB (0xBB ∷ []) 232 27 (omega arith) (omega arith)
      (omega arith) whole_frame
