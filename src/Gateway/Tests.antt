-- ===== src/Gateway/Tests.antt =====
-- Runs of the pipeline over the instants of Time/Tests.antt, with natural numbers for `f64`, for
-- JSON and for text.
use chronus_gateway.Prelude.{
  ℕ, ◌+◌, ◌*◌, ◌≡◌, refl, true, false, none, some, List, [], ◌∷◌, ◌++◌, length, ok, arith,
}
use chronus_gateway.Words.{fetch_add}
use chronus_gateway.Integers.{pos}
use chronus_gateway.Ccsds.{RawFrame, TelemetryFrame, parse_telemetry}
use chronus_gateway.Ccsds.Accepted.{header_fields}
use chronus_gateway.Frames.Deframer.{FramingConfig, new}
use chronus_gateway.Frames.Stream.{push}
use chronus_gateway.History.{Json, sent, other, in_memory}
use chronus_gateway.History.Ring.{Recorded, accepted}
use chronus_gateway.Rf.Build.{default_rf}
use chronus_gateway.Validate.Tests.{naturals, context, measured, tracked}
use chronus_gateway.Propagator.{new_provider}
use chronus_gateway.Time.Tests.{Instant, chrono, cds_bytes, time_config, received}
use chronus_gateway.Gateway.{World, Station, SharedGateway, OpenMctRealtimeMessageV1, new_gateway}
use chronus_gateway.Gateway.Process.{process_inner}
use chronus_gateway.Gateway.Pipeline.{
  Selected, recv, datagram, lagged, closed, handle_datagram, without_packets, run, start_deframer,
}
use chronus_gateway.Gateway.Ledger.{ledger, tally}
use chronus_gateway.Gateway.Accounting.{
  Agrees, run-Agrees, handle_datagram-tally, run-Recorded, new_gateway-Agrees,
}
use chronus_gateway.Gateway.Processed.{Describes, process_inner-Describes}

abbrev NaturalJson : Type 0
NaturalJson = Json ℕ ℕ ℕ ℕ ℕ

abbrev json : NaturalJson
json = record {
  from_str = λ j. some j;
  get = λ v k. some v;
  as_str = λ v. some v;
  as_u64 = λ v. some v;
  kind = λ v. other;
  timestamp_millis = λ s. some (pos s);
  is_finite = λ x. true;
  from_u8 = λ n. n;
  received_at = 0;
  apid = 1;
  points = [];
}

abbrev NaturalWorld : Type 0
NaturalWorld = World Instant (Unit {0}) ℕ ℕ ℕ ℕ ℕ ℕ ℕ ℕ

abbrev world : NaturalWorld
world = record {
  chrono = chrono;
  float = naturals;
  json = json;
  try_send = λ j. sent;
  from_be_bytes = λ b. ok (header_fields b);
  propagate = λ t. ok tracked;
  nanoseconds = λ t. pos (t.secs * 1000000000 + t.nanos);
  now = λ n. record received { secs = 1791721816 + n };
  base64 = λ b. length b;
  to_string = λ s. 0;
  to_json = λ m. some (m.apid * 1000 + m.physics_flags);
}

abbrev station : Station ℕ
station = record { time = time_config; doppler_tolerance_hz = 150; nominal_carrier_hz = 437500 }

abbrev gateway : SharedGateway Instant ℕ ℕ
gateway = new_gateway station context default_rf 2 (some (new_provider 100))

-- A packet with APID 5 and the CDS field, and four octets that are no packet.
abbrev packet : RawFrame Instant (Unit {0})
packet = record {
  bytes = (0x08 ∷ 5 ∷ 0xC0 ∷ 1 ∷ 0 ∷ 6 ∷ []) ++ cds_bytes ++ 7 ∷ [];
  received_at = received;
  source = tt;
}

abbrev garbage : RawFrame Instant (Unit {0})
garbage = record packet { bytes = 1 ∷ 2 ∷ 3 ∷ 4 ∷ [] }

abbrev events : List (Selected Instant (Unit {0}))
events =
    recv (datagram packet)
    ∷ recv (datagram garbage)
    ∷ recv (lagged 3)
    ∷ recv (datagram packet)
    ∷ recv closed
    ∷ []

abbrev framing : FramingConfig
framing = record {
  frame_length = some 20;
  asm = true;
  derandomize = false;
  fecf = true;
  spacecraft_id = none;
  virtual_channels = none;
}

abbrev frame : TelemetryFrame Instant (Unit {0})
frame = record {
  raw = packet.bytes;
  payload_len = 7;
  apid = 5;
  seq_count = 1;
  has_secondary_header = true;
  received_at = received;
  source = tt;
  physics_flags = 0;
  physics_flags_v2 = 0;
  onboard_time = none;
  time_field_len = 0;
}

frame_run : parse_telemetry world.from_be_bytes packet ≡ ok frame
unfolding parse_telemetry
frame_run = refl

gateway-Agrees : Agrees world (in_memory 2) (ledger gateway)
gateway-Agrees = new_gateway-Agrees world station context default_rf 2 (some (new_provider 100))

run-Agrees_example :
    Agrees world (in_memory 2) (ledger (run world events (gateway, start_deframer false framing)).0)
run-Agrees_example =
    run-Agrees world (in_memory 2) events (gateway, start_deframer false framing) gateway-Agrees

handle_datagram-tally_example :
    (tally (ledger (handle_datagram world packet (gateway, none)).0)
      ≡ fetch_add (tally (ledger gateway)) 1)
    × (tally (ledger (handle_datagram world packet (gateway, some (new framing))).0)
        ≡ fetch_add
            (tally (ledger gateway))
            (length (push packet.bytes (without_packets (new framing))).sink.emitted))
handle_datagram-tally_example =
    handle_datagram-tally world (in_memory 2) packet gateway (new framing) gateway-Agrees

run-Recorded_example :
    let (g, _) = run world events (
      new_gateway station context default_rf 2 (some (new_provider 100)),
      start_deframer false framing,
    ) in
    Recorded 2 (accepted json g.telemetry_tx) g.history
run-Recorded_example =
    run-Recorded world station context default_rf 2 (some (new_provider 100))
      (start_deframer false framing) events (omega arith)

process_inner-Describes_example :
    (msg : OpenMctRealtimeMessageV1 Instant ℕ ℕ) × Describes world gateway frame
      (some measured)
      none
      msg
    × ((process_inner world packet (some measured) none gateway).1 ≡ world.to_json msg)
process_inner-Describes_example =
    process_inner-Describes world packet frame (some measured) none gateway frame_run
