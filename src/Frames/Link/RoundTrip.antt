-- ===== src/Frames/Link/RoundTrip.antt =====
-- `TmFrameBuilder::pack` and `flush` at one end of a link, `TmDeframer::handle_frame` at the other.
use chronus_gateway.Prelude.{ℕ, ◌%◌, ◌^◌, ap, ◌∙◌, List, ◌++◌, length, All, arith, get_or-set_ne}
use chronus_gateway.Words.{Bytes}
use chronus_gateway.Frames.Deframer.{TmDeframer}
use chronus_gateway.Frames.Deframer.Drain.{IsPacket}
use chronus_gateway.Frames.Builder.{TmFrameBuilder, fresh_builder_vc, pack}
use chronus_gateway.Frames.Link.State.{InStep, Moved}
use chronus_gateway.Frames.Link.Queue.{with_queued, with_queued-vc, InStep-with_queued}
use chronus_gateway.Frames.Link.Compose.{receive_all}
use chronus_gateway.Frames.Link.Pack.{Packed, emit_full-Packed}

Moved-with_queued :
    {b b' : TmFrameBuilder} {d d' : TmDeframer} {vcid : ℕ} (new : List Bytes) {ps : List Bytes}
    → Moved (with_queued vcid new b) b' d d' vcid ps
    → Moved b b' d d' vcid ps
Moved-with_queued {b} {b'} {d} {d'} {vcid} new m = record {
  done = m.done;
  left = m.left;
  order = m.order;
  settings = record {
    spacecraft = m.settings.spacecraft;
    checksum = m.settings.checksum;
    frame_length = m.settings.frame_length;
  };
  queues = λ j ne. m.queues j ne ∙ get_or-set_ne b.vc vcid j _ fresh_builder_vc ne;
  in_step = m.in_step;
  delivers = record {
    emits = m.delivers.emits;
    config_same = m.delivers.config_same;
    others = m.delivers.others;
  };
}

-- The loop of `pack` over the packets waiting and the new ones.
pub pack-Packed :
    (b : TmFrameBuilder) (d : TmDeframer) (vcid : ℕ) (new : List Bytes) {ps : List Bytes}
    → All IsPacket new
    → InStep b d (vcid % 2 ^ 3) ps
    → Packed
        (with_queued (vcid % 2 ^ 3) new b)
        (pack vcid new b).0
        d
        (pack vcid new b).1
        (vcid % 2 ^ 3)
        (ps ++ new)
unfolding pack
pack-Packed b d vcid new {ps} w l =
    let v = vcid % 2 ^ 3 in
    let queued = ap (λ at. length at.queued) (with_queued-vc v new b l.framer l.channel) in
    emit_full-Packed _ (with_queued v new b) d v (InStep-with_queued b d v ps new w l)
      (omega (arith, queued))

-- `pack` on a channel on which both ends agree, with the packets `ps` still between them: the
-- deframer accepts the frames and hands on, in order, exactly a first part of `ps ++ new`, fillers
-- excepted; both ends agree on the rest, and no other channel changes at either end.
pub pack-Moved :
    (b : TmFrameBuilder) (d : TmDeframer) (vcid : ℕ) (new : List Bytes) {ps : List Bytes}
    → All IsPacket new
    → InStep b d (vcid % 2 ^ 3) ps
    → Moved b (pack vcid new b).0 d (receive_all d (pack vcid new b).1) (vcid % 2 ^ 3) (ps ++ new)
pack-Moved b d vcid new w l = Moved-with_queued new (pack-Packed b d vcid new w l).moved
