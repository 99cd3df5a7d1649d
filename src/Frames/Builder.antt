-- ===== src/Frames/Builder.antt =====
-- `TmFrameBuilder`, `idle_packet` and `to_cadu` of crates/gateway/src/frames.rs: the framer. Stream
-- offsets are `usize` and are taken not to reach 2^64.
pub mod Encode
use chronus_gateway.Prelude.{
  ℕ, zero, suc, ◌+◌, ◌-◌, ◌%◌, ◌^◌, Bool, true, false, Option, none, some, List, [], ◌∷◌, ◌++◌, ltb,
  ◌==◌, if◌then◌else◌, length, take, drop, get_or, set, replicate, min, max,
}
use chronus_gateway.Words.{Bytes, be_hi, be_lo, wrapping_succ_u8}
use chronus_gateway.Frames.Crc.{crc16_ccitt}
use chronus_gateway.Frames.Randomizer.{ccsds_randomize}
use chronus_gateway.Frames.Header.{TmFrameHeader, to_bytes}
use chronus_gateway.Frames.Parse.{
  tm_primary_header_len, tm_frame_max_len, tm_frame_min_len, fecf_len, trailer_len,
}
use chronus_gateway.Frames.Deframer.{fhp_no_packet_start, fhp_idle, packet_header_len}

pub record BuilderVc : Type 0 where
  pub frame_count : ℕ
  pub queued : Bytes
  pub starts : List ℕ
  pub emitted : ℕ

abbrev pub fresh_builder_vc : BuilderVc
fresh_builder_vc = record { frame_count = 0; queued = []; starts = []; emitted = 0 }

pub record TmFrameBuilder : Type 0 where
  pub spacecraft_id : ℕ
  pub frame_length : ℕ
  pub fecf : Bool
  pub mc_count : ℕ
  pub vc : List BuilderVc

-- `frame_length.clamp(TM_FRAME_MIN_LEN + FECF_LEN, TM_FRAME_MAX_LEN)`.
unfoldable pub new : ℕ → ℕ → TmFrameBuilder
new spacecraft_id frame_length = record {
  spacecraft_id = spacecraft_id % 2 ^ 10;
  frame_length = min tm_frame_max_len (max (tm_frame_min_len + fecf_len) frame_length);
  fecf = true;
  mc_count = 0;
  vc = replicate 8 fresh_builder_vc;
}

unfoldable pub with_fecf : Bool → TmFrameBuilder → TmFrameBuilder
with_fecf fecf b = record b { fecf = fecf }

abbrev pub data_field_len : TmFrameBuilder → ℕ
data_field_len b = b.frame_length - tm_primary_header_len - trailer_len b.fecf

abbrev pub builder_vc_of : TmFrameBuilder → ℕ → BuilderVc
builder_vc_of b vcid = get_or b.vc vcid fresh_builder_vc

abbrev pub frame_header : TmFrameBuilder → ℕ → ℕ → TmFrameHeader
frame_header b vcid fhp = record {
  version = 0;
  spacecraft_id = b.spacecraft_id;
  vcid = vcid;
  ocf_present = false;
  mc_frame_count = b.mc_count;
  vc_frame_count = (builder_vc_of b vcid).frame_count;
  secondary_header = false;
  sync_flag = false;
  first_header_pointer = fhp;
}

-- `f.extend_from_slice(&crc.to_be_bytes())` where a CRC is wanted.
abbrev pub with_crc : Bool → Bytes → Bytes
with_crc false body = body
with_crc true body = body ++ be_hi (crc16_ccitt body) ∷ be_lo (crc16_ccitt body) ∷ []

unfoldable pub frame : ℕ → ℕ → Bytes → TmFrameBuilder → TmFrameBuilder × Bytes
frame vcid fhp payload b =
    let vc = builder_vc_of b vcid in
    (
      record b {
        mc_count = wrapping_succ_u8 b.mc_count;
        vc = set b.vc vcid (record vc { frame_count = wrapping_succ_u8 vc.frame_count });
      },
      with_crc b.fecf (to_bytes (frame_header b vcid fhp) ++ payload),
    )

-- `while starts.front() < lo { pop_front }`.
unfoldable pub pop_before : ℕ → List ℕ → List ℕ
pop_before lo [] = []
pop_before lo (s ∷ starts) = if ltb s lo then pop_before lo starts else s ∷ starts

-- The First Header Pointer of a frame that holds `n` octets from offset `lo` on.
unfoldable pub pointer_at : ℕ → ℕ → List ℕ → ℕ
pointer_at lo n [] = fhp_no_packet_start
pointer_at lo n (s ∷ _) = if ltb s (lo + n) then (s - lo) % 2 ^ 16 else fhp_no_packet_start

unfoldable pub emit_frame : ℕ → TmFrameBuilder → TmFrameBuilder × Bytes
emit_frame vcid b =
    let n = data_field_len b in
    let vc = builder_vc_of b vcid in
    let starts = pop_before vc.emitted vc.starts in
    let vc' : BuilderVc = record vc {
      starts = starts;
      queued = drop n vc.queued;
      emitted = vc.emitted + n;
    } in
    frame vcid (pointer_at vc.emitted n starts) (take n vc.queued)
      (record b { vc = set b.vc vcid vc' })

-- The loop over the full frames, on fuel.
unfoldable pub emit_full : ℕ → ℕ → TmFrameBuilder → TmFrameBuilder × List Bytes
emit_full zero vcid b = (b, [])
emit_full (suc fuel) vcid b =
    let (b1, f) = emit_frame vcid b in
    let (b2, fs) = emit_full fuel vcid b1 in
    if ltb (length (builder_vc_of b vcid).queued) (data_field_len b) then (b, []) else (b2, f ∷ fs)

unfoldable pub queue_packets : List Bytes → BuilderVc → BuilderVc
queue_packets [] vc = vc
queue_packets (p ∷ ps) vc = queue_packets ps (record vc {
  starts = vc.starts ++ (vc.emitted + length vc.queued) ∷ [];
  queued = vc.queued ++ p;
})

-- A data field holds at least one octet, so there are no more frames than octets queued.
unfoldable pub pack : ℕ → List Bytes → TmFrameBuilder → TmFrameBuilder × List Bytes
pack vcid_arg packets b =
    let vcid = vcid_arg % 2 ^ 3 in
    let vc = queue_packets packets (builder_vc_of b vcid) in
    emit_full (length vc.queued) vcid (record b { vc = set b.vc vcid vc })

unfoldable pub idle_packet : ℕ → Bytes
idle_packet wanted =
    let len = max wanted (packet_header_len + 1) in
    let field = (len - packet_header_len - 1) % 2 ^ 16 in
    0x07 ∷ 0xFF ∷ 0xC0 ∷ 0x00 ∷ be_hi field ∷ be_lo field ∷ replicate (len - packet_header_len) 0x55

unfoldable pub flush : ℕ → TmFrameBuilder → TmFrameBuilder × List Bytes
flush vcid b =
    let n = data_field_len b in
    let queued = length (builder_vc_of b (vcid % 2 ^ 3)).queued in
    let room = n - queued % n in
    let idle_len = if ltb packet_header_len room then room else room + n in
    let filled = pack vcid (idle_packet idle_len ∷ []) b in if queued == 0 then (b, []) else filled

unfoldable pub idle_frame : ℕ → TmFrameBuilder → TmFrameBuilder × Bytes
idle_frame vcid b = frame (vcid % 2 ^ 3) fhp_idle (replicate (data_field_len b) 0x55) b

unfoldable pub to_cadu : Bytes → Bool → Bytes
to_cadu f randomize = 0x1A ∷ 0xCF ∷ 0xFC ∷ 0x1D ∷ (if randomize then ccsds_randomize f else f)
