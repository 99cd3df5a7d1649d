-- ===== src/Gateway.antt =====
-- The shared state of crates/gateway/src/state.rs with the counters of crates/gateway/src/metrics.rs
-- and pipeline.rs, and the message of crates/gateway/src/http.rs.
pub mod Process
pub mod Pipeline
pub mod Processed
pub mod Ledger
pub mod Accounting
pub mod Tests
use chronus_gateway.Prelude.{
  ℕ, ◌+◌, Bool, true, false, not, ◌&&◌, ◌||◌, Option, none, some, List, [], ◌∷◌, ◌++◌, ◌==◌,
  if◌then◌else◌, Result, ok, err,
}
use chronus_gateway.Words.{Bytes, fetch_add}
use chronus_gateway.Integers.{ℤ, above_zero}
use chronus_gateway.Floats.{Float}
use chronus_gateway.Ccsds.{
  SpacePacketHeader, CcsdsError, RawFrame, TelemetryFrame, payload, parse_telemetry,
}
use chronus_gateway.Time.{Chrono, TimeConfig, resolve_frame_time}
use chronus_gateway.Validate.{TrackingState, ValidationContext, effective_doppler_tolerance_hz}
use chronus_gateway.Validate.Checks.{apply_physics_validation}
use chronus_gateway.Propagator.{TrackingProvider, tracking_state}
use chronus_gateway.Rf
use chronus_gateway.Rf.{RfConfig, RfMetadata, RfStore, lookup}
use chronus_gateway.Rf.Build.{new_metadata, metadata_is_empty}
use chronus_gateway.History.{in_memory, HistoryStore, Json, Sending, is_some}

pub record GatewayMetrics : Type 0 where
  pub telemetry_frames_emitted : ℕ
  pub telemetry_parse_errors : ℕ
  pub anomaly_frames : ℕ
  pub tracking_errors : ℕ
  pub serialize_errors : ℕ
  pub ws_messages_sent : ℕ
  pub processing_latency_ms_sum : ℕ
  pub processing_latency_ms_count : ℕ
  pub ws_clients_connected : ℕ

abbrev pub no_metrics : GatewayMetrics
no_metrics = record {
  telemetry_frames_emitted = 0;
  telemetry_parse_errors = 0;
  anomaly_frames = 0;
  tracking_errors = 0;
  serialize_errors = 0;
  ws_messages_sent = 0;
  processing_latency_ms_sum = 0;
  processing_latency_ms_count = 0;
  ws_clients_connected = 0;
}

-- `x as f64 / y as f64` of the two latency counters.
abbrev pub avg_processing_latency_ms : {F : Type 0} → Float F → GatewayMetrics → Option F
avg_processing_latency_ms fl m =
    if m.processing_latency_ms_count == 0
    then none
    else some
        (fl.div (fl.of_u64 m.processing_latency_ms_sum) (fl.of_u64 m.processing_latency_ms_count))

pub record PipelineStats : Type 0 where
  pub datagrams_lagged : ℕ
  pub ws_messages_dropped : ℕ
  pub messages_published : ℕ

abbrev pub no_pipeline_stats : PipelineStats
no_pipeline_stats = record { datagrams_lagged = 0; ws_messages_dropped = 0; messages_published = 0 }

-- The message without its constant `chronus_schema`; `B` is `String`.
pub record OpenMctRealtimeMessageV1 (T F B : Type 0) : Type 0 where
  pub apid : ℕ
  pub seq_count : ℕ
  pub received_at : T
  pub physics_flags : ℕ
  pub source : B
  pub elevation_deg : Option F
  pub azimuth_deg : Option F
  pub range_km : Option F
  pub range_rate_km_s : Option F
  pub apparent_elevation_deg : Option F
  pub doppler_tolerance_hz : Option F
  pub physics_flags_v2 : ℕ
  pub onboard_time : Option T
  pub physics_time : T
  pub rf_matched : Bool
  pub vcid : Option ℕ
  pub payload_base64 : B

-- The part of `StationConfig` that the processing reads.
pub record Station (F : Type 0) : Type 0 where
  pub time : TimeConfig F
  pub doppler_tolerance_hz : F
  pub nominal_carrier_hz : F

-- The code around the gateway: `now n` is the reading number `n` of the clock, `to_json` is
-- `serde_json::to_string`, `propagate` the tracking backend, `base64` and `to_string` the text of
-- bytes and of a socket address; `X` is `TrackingError` and `H` the header crate's error.
pub record World (T S F J V K N B H X : Type 0) : Type 0 where
  pub chrono : Chrono T
  pub float : Float F
  pub json : Json J V K N F
  pub try_send : J → Sending
  pub from_be_bytes : Bytes → Result H SpacePacketHeader
  pub propagate : T → Result X (TrackingState F)
  pub nanoseconds : T → ℤ
  pub now : ℕ → T
  pub base64 : Bytes → B
  pub to_string : S → B
  pub to_json : OpenMctRealtimeMessageV1 T F B → Option J

-- `telemetry_tx` is what was handed to the channel of processed messages. `clock` counts the readings
-- of the clock.
pub record SharedGateway (T F J : Type 0) : Type 0 where
  pub station : Station F
  pub validation : ValidationContext F
  pub gateway_metrics : GatewayMetrics
  pub pipeline : PipelineStats
  pub history : HistoryStore J F
  pub rf : RfStore F
  pub tracking : Option (TrackingProvider T F)
  pub telemetry_tx : List J
  pub clock : ℕ

-- `SharedGateway::new`: the validation context and the store of the station are built from the
-- configuration, whose parts are the arguments.
abbrev pub new_gateway :
    {T F J : Type 0}
    → Station F
    → ValidationContext F
    → RfConfig
    → (history_capacity : ℕ) → Option (TrackingProvider T F)
    → SharedGateway T F J
new_gateway station validation rf history_capacity tracking = record {
  station = station;
  validation = validation;
  gateway_metrics = no_metrics;
  pipeline = no_pipeline_stats;
  history = in_memory history_capacity;
  rf = Rf.new rf;
  tracking = tracking;
  telemetry_tx = [];
  clock = 0;
}

module _ {T F J : Type 0} where
  abbrev pub with_metrics : GatewayMetrics → SharedGateway T F J → SharedGateway T F J
  with_metrics m g = record g { gateway_metrics = m }

  abbrev pub count_parse_error : SharedGateway T F J → SharedGateway T F J
  count_parse_error g =
      let m = g.gateway_metrics in
      with_metrics (record m { telemetry_parse_errors = fetch_add m.telemetry_parse_errors 1 }) g

  abbrev pub count_tracking_error : SharedGateway T F J → SharedGateway T F J
  count_tracking_error g =
      let m = g.gateway_metrics in
      with_metrics (record m { tracking_errors = fetch_add m.tracking_errors 1 }) g

  abbrev pub count_serialize_error : SharedGateway T F J → SharedGateway T F J
  count_serialize_error g =
      let m = g.gateway_metrics in
      with_metrics (record m { serialize_errors = fetch_add m.serialize_errors 1 }) g

  abbrev pub count_anomaly :
      {S : Type 0} → TelemetryFrame T S → SharedGateway T F J → SharedGateway T F J
  count_anomaly tm g =
      let m = g.gateway_metrics in
      if not (tm.physics_flags == 0) || not (tm.physics_flags_v2 == 0)
      then with_metrics (record m { anomaly_frames = fetch_add m.anomaly_frames 1 }) g
      else g

  -- The three counters of a message that was serialized.
  abbrev pub count_emitted : (latency_ms : ℕ) → SharedGateway T F J → SharedGateway T F J
  count_emitted latency_ms g =
      let m = g.gateway_metrics in
      with_metrics
        (record m {
          telemetry_frames_emitted = fetch_add m.telemetry_frames_emitted 1;
          processing_latency_ms_sum = fetch_add m.processing_latency_ms_sum latency_ms;
          processing_latency_ms_count = fetch_add m.processing_latency_ms_count 1;
        })
        g
