-- ===== src/Frames/Deframer.antt =====
-- The packet extractor of crates/gateway/src/frames.rs: `VcState`, `TmDeframer` with its `accept`
-- and `handle_frame`, and `drain_packets`. The callback `emit` appends to `emitted`.
pub mod Drain
pub mod Reassembly
pub mod Accept
pub mod Gap
pub mod Invariant
use chronus_gateway.Prelude.{
  ℕ, zero, suc, ◌+◌, ◌/◌, ◌%◌, ◌^◌, Bool, true, false, not, ◌&&◌, ◌||◌, Option, none, some, List,
  [], ◌∷◌, ◌++◌, ltb, leb, ◌==◌, if◌then◌else◌, length, take, drop, get_or, set, replicate, Result,
  ok, err,
}
use chronus_gateway.Words.{Bytes, from_be_u16, wrapping_succ_u8}
use chronus_gateway.Frames.Parse.{
  FrameError, fecf_mismatch, TmFrame, parse_tm_frame, tm_frame_min_len, tm_frame_max_len,
}
use chronus_gateway.Frames.Randomizer.{ccsds_randomize}
use chronus_gateway.Frames.Stats.{FramingStats, no_counts, bump}

abbrev pub fhp_no_packet_start : ℕ
fhp_no_packet_start = 0x7FF

abbrev pub fhp_idle : ℕ
fhp_idle = 0x7FE

abbrev pub idle_apid : ℕ
idle_apid = 0x7FF

abbrev pub packet_header_len : ℕ
packet_header_len = 6

pub record ExtractedPacket : Type 0 where
  pub vcid : ℕ
  pub spacecraft_id : ℕ
  pub bytes : Bytes

-- The counters, and the packets that the callback has received.
pub record Sink : Type 0 where
  pub stats : FramingStats
  pub emitted : List ExtractedPacket

pub record VcState : Type 0 where
  pub pending : Bytes
  pub in_sync : Bool
  pub last_count : Option ℕ

abbrev pub fresh_vc : VcState
fresh_vc = record { pending = []; in_sync = false; last_count = none }

abbrev pub is_empty : Bytes → Bool
is_empty [] = true
is_empty (_ ∷ _) = false

-- `if !self.pending.is_empty() { bump(&stats.packets_dropped) }`
unfoldable pub count_dropped : Bytes → Sink → Sink
count_dropped pending s =
    if is_empty pending
    then s
    else record s { stats = record s.stats { packets_dropped = bump s.stats.packets_dropped } }

unfoldable pub lose_sync : VcState → Sink → VcState × Sink
unfolding count_dropped
lose_sync vc s = (record vc { pending = []; in_sync = false }, count_dropped vc.pending s)

-- The tuple `emit_ctx`.
pub record EmitCtx : Type 0 where
  pub vcid : ℕ
  pub spacecraft_id : ℕ

-- Reads of the packet header; every use stands behind a check of the length.
abbrev pub declared_len : Bytes → ℕ
declared_len p = packet_header_len + 1 + from_be_u16 (get_or p 4 0) (get_or p 5 0)

abbrev pub packet_version : Bytes → ℕ
packet_version p = get_or p 0 0 / 2 ^ 5

abbrev pub packet_apid : Bytes → ℕ
packet_apid p = from_be_u16 (get_or p 0 0) (get_or p 1 0) % 2 ^ 11

-- The end of a round of `drain_packets`, for a packet with this APID.
unfoldable pub deliver : EmitCtx → ℕ → Bytes → Sink → Sink
deliver ctx apid packet s =
    if apid == idle_apid
    then record s { stats = record s.stats { packets_idle = bump s.stats.packets_idle } }
    else record s {
      stats = record s.stats { packets_extracted = bump s.stats.packets_extracted };
      emitted =
          s.emitted
          ++ record { vcid = ctx.vcid; spacecraft_id = ctx.spacecraft_id; bytes = packet } ∷ [];
    }

-- The loop of `drain_packets`, on fuel.
pub drain_from : ℕ → EmitCtx → VcState → Sink → VcState × Sink
drain_from zero ctx vc s = (vc, s)
drain_from (suc fuel) ctx vc s =
    let p = vc.pending in
    let len = declared_len p in
    let rest =
      drain_from fuel ctx (record vc { pending = drop len p })
        (deliver ctx (packet_apid p) (take len p) s) in
    if ltb (length p) packet_header_len
    then (vc, s)
    else if not (packet_version p == 0)
    then lose_sync vc s
    else if ltb (length p) len
    then (vc, s)
    else rest

unfoldable pub drain_packets : EmitCtx → VcState → Sink → VcState × Sink
unfolding drain_from
drain_packets ctx vc s = drain_from (length vc.pending) ctx vc s

-- `if let Some(last) = … && count != last.wrapping_add(1)`, for both frame counters.
abbrev pub is_gap : Option ℕ → ℕ → Bool
is_gap none count = false
is_gap (some last) count = not (count == wrapping_succ_u8 last)

unfoldable pub note_vc_count : ℕ → VcState → Sink → VcState × Sink
note_vc_count count vc s =
    let gapped = record s {
      stats = record s.stats { vc_frame_gaps = bump s.stats.vc_frame_gaps };
    } in
    let (vc', s') = if is_gap vc.last_count count then lose_sync vc gapped else (vc, s) in
    (record vc' { last_count = some count }, s')

-- Out of sync nothing is buffered; in sync the bytes before the pointer must finish a packet.
unfoldable pub finish_packet : EmitCtx → Bytes → VcState → Sink → VcState × Sink
finish_packet ctx head vc s =
    let (vc', s') = drain_packets ctx (record vc { pending = vc.pending ++ head }) s in
    if vc.in_sync then if is_empty vc'.pending then (vc', s') else lose_sync vc' s' else (vc, s)

-- The rest of `accept` behind the counters: the First Header Pointer against the data field.
unfoldable pub extract : EmitCtx → ℕ → Bytes → VcState → Sink → VcState × Sink
extract ctx fhp payload vc s =
    if fhp == fhp_idle
    then (vc, record s { stats = record s.stats { frames_idle = bump s.stats.frames_idle } })
    else if not (fhp == fhp_no_packet_start) && leb (length payload) fhp
    then lose_sync vc s
    else if fhp == fhp_no_packet_start
    then if vc.in_sync
      then drain_packets ctx (record vc { pending = vc.pending ++ payload }) s
      else (vc, s)
    else let (vc', s') = finish_packet ctx (take fhp payload) vc s in
      drain_packets ctx (record vc' { pending = drop fhp payload; in_sync = true }) s'

-- `FramingConfig` without its `mode`, which the deframer does not read.
pub record FramingConfig : Type 0 where
  pub frame_length : Option ℕ
  pub asm : Bool
  pub derandomize : Bool
  pub fecf : Bool
  pub spacecraft_id : Option ℕ
  pub virtual_channels : Option (List ℕ)

-- `scratch` is left out: it is overwritten before every use.
pub record TmDeframer : Type 0 where
  pub config : FramingConfig
  pub open config use *
  pub sink : Sink
  pub stream : Bytes
  pub vcs : List VcState
  pub last_mc : Option ℕ

abbrev pub new : FramingConfig → TmDeframer
new cfg = record {
  config = cfg;
  sink = record { stats = no_counts; emitted = [] };
  stream = [];
  vcs = replicate 8 fresh_vc;
  last_mc = none;
}

unfoldable pub reset : TmDeframer → TmDeframer
reset d = record d { stream = []; vcs = replicate 8 fresh_vc; last_mc = none }

-- Replaces the counters.
abbrev pub with_stats : TmDeframer → FramingStats → TmDeframer
with_stats d stats = record d { sink = record d.sink { stats = stats } }

abbrev pub contains : List ℕ → ℕ → Bool
contains [] x = false
contains (y ∷ ys) x = y == x || contains ys x

abbrev pub is_other_spacecraft : Option ℕ → ℕ → Bool
is_other_spacecraft none id = false
is_other_spacecraft (some wanted) id = not (wanted == id)

abbrev pub is_filtered : Option (List ℕ) → ℕ → Bool
is_filtered none vcid = false
is_filtered (some vcs) vcid = not (contains vcs vcid)

unfoldable pub note_mc_count : ℕ → TmDeframer → TmDeframer
note_mc_count count d =
    let st = d.sink.stats in
    let gapped = with_stats d (record st { mc_frame_gaps = bump st.mc_frame_gaps }) in
    record (if is_gap d.last_mc count then gapped else d) { last_mc = some count }

-- From `bump(&self.stats.frames_ok)` on.
unfoldable pub accept_vc : TmFrame → TmDeframer → TmDeframer
accept_vc frame d =
    let h = frame.header in
    let ctx : EmitCtx = record { vcid = h.vcid; spacecraft_id = h.spacecraft_id } in
    let s : Sink = record d.sink {
      stats = record d.sink.stats { frames_ok = bump d.sink.stats.frames_ok };
    } in
    let (vc, s1) = note_vc_count h.vc_frame_count (get_or d.vcs h.vcid fresh_vc) s in
    let (vc', s2) = extract ctx h.first_header_pointer frame.payload vc s1 in
    record d { vcs = set d.vcs h.vcid vc'; sink = s2 }

unfoldable pub accept : TmDeframer → TmFrame → TmDeframer
accept d frame =
    let h = frame.header in
    let st = d.sink.stats in
    if is_other_spacecraft d.spacecraft_id h.spacecraft_id
    then with_stats d (record st { frames_other_spacecraft = bump st.frames_other_spacecraft })
    else let d1 = note_mc_count h.mc_frame_count d in
      let st1 = d1.sink.stats in
      if is_filtered d1.virtual_channels h.vcid
      then with_stats d1 (record st1 { frames_vc_filtered = bump st1.frames_vc_filtered })
      else accept_vc frame d1

abbrev pub is_wrong_length : Option ℕ → ℕ → Bool
is_wrong_length none n = false
is_wrong_length (some l) n = not (l == n)

abbrev pub bump_invalid : TmDeframer → TmDeframer
bump_invalid d =
    let st = d.sink.stats in with_stats d (record st { frames_invalid = bump st.frames_invalid })

-- The arms of the `match` on the parsed frame.
unfoldable pub settle : TmDeframer → Result FrameError TmFrame → TmDeframer × Bool
settle d (ok frame) = (accept d frame, true)
settle d (err (fecf_mismatch _ _)) =
    let st = d.sink.stats in
    (with_stats d (record st { frames_crc_error = bump st.frames_crc_error }), false)
settle d (err _) = (bump_invalid d, false)

unfoldable pub handle_frame : TmDeframer → Bytes → TmDeframer × Bool
handle_frame d raw =
    let scratch = if d.derandomize then ccsds_randomize raw else raw in
    if ltb (length raw) tm_frame_min_len
      || ltb tm_frame_max_len (length raw)
      || is_wrong_length d.frame_length (length raw)
    then (bump_invalid d, false)
    else settle d (parse_tm_frame scratch d.fecf)
