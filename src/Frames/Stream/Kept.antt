-- ===== src/Frames/Stream/Kept.antt =====
-- What `handle_frame` leaves alone: the byte stream and the configuration.
use chronus_gateway.Prelude.{◌≡◌, refl, Result, ok, err, if◌then◌else◌, arith}
use chronus_gateway.Words.{Bytes}
use chronus_gateway.Frames.Randomizer.{ccsds_randomize}
use chronus_gateway.Frames.Parse.{FrameError, TmFrame, parse_tm_frame}
use chronus_gateway.Frames.Deframer.{
  TmDeframer, accept, accept_vc, note_mc_count, settle, handle_frame,
}

-- `d'` has the stream and the configuration of `d`.
record Kept (d d' : TmDeframer) : Type 0 where
  same_stream : d'.stream ≡ d.stream
  same_config : d'.config ≡ d.config

accept-Kept : (d : TmDeframer) (f : TmFrame) → Kept d (accept d f)
unfolding accept accept_vc note_mc_count
accept-Kept d f = ground arith

settle-Kept : (d : TmDeframer) (r : Result FrameError TmFrame) → Kept d (settle d r).0
unfolding settle
settle-Kept d (ok f) = accept-Kept d f
settle-Kept d (err (FrameError.fecf_mismatch _ _)) = record {
  same_stream = refl;
  same_config = refl;
}
settle-Kept d (err (FrameError.too_short _)) = record { same_stream = refl; same_config = refl }
settle-Kept d (err (FrameError.not_tm _)) = record { same_stream = refl; same_config = refl }
settle-Kept d (err FrameError.not_packet_data) = record { same_stream = refl; same_config = refl }
settle-Kept d (err (FrameError.bad_secondary_header _)) = record {
  same_stream = refl;
  same_config = refl;
}

handle_frame-Kept : (d : TmDeframer) (raw : Bytes) → Kept d (handle_frame d raw).0
unfolding handle_frame
handle_frame-Kept d raw =
    let scratch = if d.derandomize then ccsds_randomize raw else raw in
    let kept = settle-Kept d (parse_tm_frame scratch d.fecf) in
    ground (arith, kept.same_stream, kept.same_config)

pub handle_frame-stream : (d : TmDeframer) (raw : Bytes) → (handle_frame d raw).0.stream ≡ d.stream
handle_frame-stream d raw = (handle_frame-Kept d raw).same_stream

pub handle_frame-config : (d : TmDeframer) (raw : Bytes) → (handle_frame d raw).0.config ≡ d.config
handle_frame-config d raw = (handle_frame-Kept d raw).same_config
