-- ===== src/Gateway/Pipeline.antt =====
-- crates/gateway/src/pipeline.rs: one datagram, and the loop over what the channel of datagrams gives.
use chronus_gateway.Prelude.{ℕ, Bool, true, false, Option, none, some, List, [], ◌∷◌, ◌++◌}
use chronus_gateway.Words.{fetch_add}
use chronus_gateway.Ccsds.{RawFrame}
use chronus_gateway.Frames.Deframer.{TmDeframer, FramingConfig, ExtractedPacket, new, reset}
use chronus_gateway.Frames.Stream.{push}
use chronus_gateway.History.{record_message}
use chronus_gateway.Gateway.{World, SharedGateway}
use chronus_gateway.Gateway.Process.{process_packet}

-- What `rx.recv()` answers.
pub data Received (T S : Type 0) : Type 0 where
  datagram : RawFrame T S → Received T S
  lagged : (missed : ℕ) → Received T S
  closed : Received T S

-- What `select!` takes: the shutdown comes first where both are ready.
pub data Selected (T S : Type 0) : Type 0 where
  shutdown : Selected T S
  recv : Received T S → Selected T S

-- The callback has received nothing; it fills `packets` for this datagram only.
abbrev pub without_packets : TmDeframer → TmDeframer
without_packets d = record d { sink = record d.sink { emitted = [] } }

module _ {T S F J V K N B H X : Type 0} (w : World T S F J V K N B H X) where
  abbrev pub publish_json : SharedGateway T F J × Option J → SharedGateway T F J
  publish_json (g, none) = g
  publish_json (g, some json) =
      let (history, _) = record_message w.json w.try_send json g.history in
      let p = g.pipeline in
      record g {
        history = history;
        pipeline = record p { messages_published = fetch_add p.messages_published 1 };
        telemetry_tx = g.telemetry_tx ++ json ∷ [];
      }

  unfoldable pub publish : RawFrame T S → Option ℕ → SharedGateway T F J → SharedGateway T F J
  publish packet vcid g = publish_json (process_packet w packet vcid g)

  -- `for (vcid, bytes) in packets`, for packets of the datagram `raw`.
  unfoldable pub publish_all :
      RawFrame T S → List ExtractedPacket → SharedGateway T F J → SharedGateway T F J
  publish_all raw [] g = g
  publish_all raw (p ∷ ps) g =
      publish_all raw ps (publish (record raw { bytes = p.bytes }) (some p.vcid) g)

  unfoldable pub handle_datagram :
      RawFrame T S
      → SharedGateway T F J × Option TmDeframer
      → SharedGateway T F J × Option TmDeframer
  handle_datagram raw (g, none) = (publish raw none g, none)
  handle_datagram raw (g, some d) =
      let d' = push raw.bytes (without_packets d) in (publish_all raw d'.sink.emitted g, some d')

  abbrev pub reset_deframer : Option TmDeframer → Option TmDeframer
  reset_deframer none = none
  reset_deframer (some d) = some (reset d)

  abbrev pub count_lagged : ℕ → SharedGateway T F J → SharedGateway T F J
  count_lagged missed g =
      let p = g.pipeline in
      record g { pipeline = record p { datagrams_lagged = fetch_add p.datagrams_lagged missed } }

  -- The loop of `run`.
  unfoldable pub run :
      List (Selected T S)
      → SharedGateway T F J × Option TmDeframer
      → SharedGateway T F J × Option TmDeframer
  run [] s = s
  run (shutdown ∷ events) s = s
  run (recv closed ∷ events) s = s
  run (recv (datagram raw) ∷ events) s = run events (handle_datagram raw s)
  run (recv (lagged missed) ∷ events) (g, d) = run events (count_lagged missed g, reset_deframer d)

-- The deframer at the start of `run`; `tm_frames` says whether this is the framing mode.
abbrev pub start_deframer : (tm_frames : Bool) → FramingConfig → Option TmDeframer
start_deframer true cfg = some (new cfg)
start_deframer false cfg = none
