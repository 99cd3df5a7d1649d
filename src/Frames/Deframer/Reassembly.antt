-- ===== src/Frames/Deframer/Reassembly.antt =====
-- `extract`, the First Header Pointer logic of `TmDeframer::accept`, on the frames of a contiguous
-- stream of packets.
use chronus_gateway.Prelude.{
  concat, ℕ, ◌<◌, ◌≡◌, refl, sym, ◌∙◌, true, false, inl, inr, List, [], ◌∷◌, ◌++◌, leb, ◌==◌,
  if◌then◌else◌, length, take, drop, All, arith, append-nil, append_assoc, Bool-cases,
}
use chronus_gateway.Words.{Bytes}
use chronus_gateway.Frames.Deframer.{
  Sink, VcState, EmitCtx, ExtractedPacket, deliver, packet_apid, idle_apid, finish_packet, extract,
  fhp_idle, fhp_no_packet_start,
}
use chronus_gateway.Frames.Deframer.Drain.{IsPacket, IsPartial, deliver_all, drain_packets_partial}

-- The data field of one frame with its First Header Pointer, in a stream of packets: `before` is
-- the part of a packet that earlier frames carried, `packets` those that this frame finishes, and
-- `after` the part of a packet that it leaves.
pub data Carries (before : Bytes) (fhp : ℕ) (payload : Bytes) : List Bytes → Bytes → Type 0 where
  continues :
      {packets : List Bytes} {after : Bytes}
      → fhp ≡ fhp_no_packet_start
      → All IsPacket packets
      → before ++ payload ≡ concat packets ++ after
      → IsPartial after
      → Carries before fhp payload packets after
  starts :
      (finished started : List Bytes) {packets : List Bytes} {after : Bytes}
      → fhp < length payload
      → fhp < fhp_idle
      → packets ≡ finished ++ started
      → All IsPacket finished
      → All IsPacket started
      → before ++ take fhp payload ≡ concat finished
      → drop fhp payload ≡ concat started ++ after
      → IsPartial after
      → Carries before fhp payload packets after

pub deliver_all-append :
    (ctx : EmitCtx) (ps qs : List Bytes) (s : Sink)
    → deliver_all ctx (ps ++ qs) s ≡ deliver_all ctx qs (deliver_all ctx ps s)
unfolding deliver_all
deliver_all-append ctx [] qs s = refl
deliver_all-append ctx (p ∷ ps) qs s =
    deliver_all-append ctx ps qs (deliver ctx (packet_apid p) p s)

finish_packet_in_sync :
    (ctx : EmitCtx) (head : Bytes) (vc : VcState) (ps : List Bytes) (s : Sink)
    → vc.in_sync ≡ true
    → All IsPacket ps
    → vc.pending ++ head ≡ concat ps
    → finish_packet ctx head vc s ≡ (record vc { pending = [] }, deliver_all ctx ps s)
unfolding finish_packet
finish_packet_in_sync ctx head vc ps s sync w e =
    let drained =
      drain_packets_partial ctx (record vc { pending = vc.pending ++ head }) ps [] s w
        (e ∙ sym (append-nil (concat ps))) (inl (omega arith)) in
    rw (drained, sync)

-- A virtual channel that is in sync delivers, on the next frame of the stream, exactly the packets
-- that the frame finishes, in order, and keeps the part of a packet that the frame leaves.
pub extract_in_sync :
    (ctx : EmitCtx) (fhp : ℕ) (payload : Bytes) (vc : VcState) {ps : List Bytes} {t : Bytes}
    (s : Sink)
    → vc.in_sync ≡ true
    → Carries vc.pending fhp payload ps t
    → extract ctx fhp payload vc s
      ≡ (record vc { pending = t; in_sync = true }, deliver_all ctx ps s)
unfolding extract
extract_in_sync ctx fhp payload vc {ps} {t} s sync (continues e w d h) =
    let drained =
      drain_packets_partial ctx (record vc { pending = vc.pending ++ payload }) ps t s w d h in
    rw (e, drained, sync)
extract_in_sync ctx fhp payload vc {ps} {t} s sync (starts finished started l i e w1 w2 d1 d2 h) =
    let idle : (fhp == fhp_idle) ≡ false = ground arith in
    let inside : leb (length payload) fhp ≡ false = ground arith in
    let start : (fhp == fhp_no_packet_start) ≡ false = ground arith in
    let first = finish_packet_in_sync ctx (take fhp payload) vc finished s sync w1 d1 in
    let next =
      drain_packets_partial ctx (record vc { pending = drop fhp payload; in_sync = true }) started t
        (deliver_all ctx finished s) w2 d2 h in
    rw (idle, start, inside, first, next, e, deliver_all-append ctx finished started s)

-- Out of sync, a frame in which a packet starts restores sync: it delivers the packets that start
-- and end in it, and none of the bytes before the pointer.
pub extract_acquires :
    (ctx : EmitCtx) (fhp : ℕ) (payload : Bytes) (vc : VcState) (started : List Bytes) (t : Bytes)
    (s : Sink)
    → vc.in_sync ≡ false
    → fhp < length payload
    → fhp < fhp_idle
    → All IsPacket started
    → drop fhp payload ≡ concat started ++ t
    → IsPartial t
    → extract ctx fhp payload vc s
      ≡ (record vc { pending = t; in_sync = true }, deliver_all ctx started s)
unfolding extract finish_packet
extract_acquires ctx fhp payload vc started t s sync l i w d h =
    let idle : (fhp == fhp_idle) ≡ false = ground arith in
    let inside : leb (length payload) fhp ≡ false = ground arith in
    let start : (fhp == fhp_no_packet_start) ≡ false = ground arith in
    let next =
      drain_packets_partial ctx (record vc { pending = drop fhp payload; in_sync = true }) started t
        s w d h in
    rw (idle, start, inside, sync) next

-- The packets among these that are no filler, as the callback receives them.
unfoldable pub extracted : EmitCtx → List Bytes → List ExtractedPacket
extracted ctx [] = []
extracted ctx (p ∷ ps) =
    if packet_apid p == idle_apid
    then extracted ctx ps
    else record { vcid = ctx.vcid; spacecraft_id = ctx.spacecraft_id; bytes = p } ∷ extracted ctx ps

pub emitted-deliver_all :
    (ctx : EmitCtx) (ps : List Bytes) (s : Sink)
    → (deliver_all ctx ps s).emitted ≡ s.emitted ++ extracted ctx ps
unfolding deliver_all deliver extracted
emitted-deliver_all ctx [] s = sym (append-nil s.emitted)
emitted-deliver_all ctx (p ∷ ps) s = elim (Bool-cases (packet_apid p == idle_apid)) [
  | inl filler ↦ emitted-deliver_all ctx ps (deliver ctx (packet_apid p) p s) ∙ rw filler
  | inr real ↦
      emitted-deliver_all ctx ps (deliver ctx (packet_apid p) p s)
      ∙ rw real (append_assoc s.emitted _ (extracted ctx ps))
]
