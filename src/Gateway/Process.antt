-- ===== src/Gateway/Process.antt =====
-- The processing of one packet, crates/gateway/src/http.rs: parse, time, receiver measurements,
-- tracking, co-validation, serialization.
use chronus_gateway.Prelude.{ℕ, ◌+◌, Bool, not, Option, none, some, if◌then◌else◌, Result, ok, err}
use chronus_gateway.Integers.{above_zero}
use chronus_gateway.Ccsds.{CcsdsError, RawFrame, TelemetryFrame, payload, parse_telemetry}
use chronus_gateway.Time.{resolve_frame_time}
use chronus_gateway.Validate.{TrackingState, ValidationContext, effective_doppler_tolerance_hz}
use chronus_gateway.Validate.Checks.{apply_physics_validation}
use chronus_gateway.Propagator.{TrackingProvider, tracking_state}
use chronus_gateway.Rf.{RfMetadata, lookup}
use chronus_gateway.Rf.Build.{new_metadata, metadata_is_empty}
use chronus_gateway.Gateway.{
  World, SharedGateway, Station, OpenMctRealtimeMessageV1, count_parse_error, count_tracking_error,
  count_serialize_error, count_anomaly, count_emitted,
}

abbrev pub map_option {ℓ κ} : {A : Type ℓ} {B : Type κ} → (A → B) → Option A → Option B
map_option f none = none
map_option f (some a) = some (f a)

abbrev pub filter_option {ℓ} : {A : Type ℓ} → (A → Bool) → Option A → Option A
filter_option p none = none
filter_option p (some a) = if p a then some a else none

abbrev pub metadata_or_default : {F : Type 0} → Option (RfMetadata F) → RfMetadata F
metadata_or_default none = new_metadata
metadata_or_default (some m) = m

module _ {T S F J V K N B H X : Type 0} (w : World T S F J V K N B H X) where
  -- `explicit_rf.or_else(|| state.rf.lookup(..)).unwrap_or_default()`.
  unfoldable pub receiver_metadata :
      Option (RfMetadata F) → T → SharedGateway T F J → SharedGateway T F J × RfMetadata F
  receiver_metadata (some rf) received_at g = (g, rf)
  receiver_metadata none received_at g =
      let (rf, found) = lookup (w.nanoseconds received_at) g.rf in
      (record g { rf = rf }, metadata_or_default found)

  abbrev pub settle_physics :
      SharedGateway T F J
      → TrackingProvider T F × Result X (TrackingState F)
      → SharedGateway T F J × Option (TrackingState F)
  settle_physics g (provider, ok state) = (record g { tracking = some provider }, some state)
  settle_physics g (provider, err _) =
      (count_tracking_error (record g { tracking = some provider }), none)

  abbrev pub ask_physics :
      Option (TrackingProvider T F)
      → T
      → SharedGateway T F J
      → SharedGateway T F J × Option (TrackingState F)
  ask_physics none time g = (g, none)
  ask_physics (some provider) time g =
      settle_physics g (tracking_state w.chrono w.propagate time provider)

  -- `let physics: Option<TrackingState> = match state.tracking ..`.
  unfoldable pub physics_at :
      T → SharedGateway T F J → SharedGateway T F J × Option (TrackingState F)
  physics_at time g = ask_physics g.tracking time g

  abbrev pub validate_with :
      ValidationContext F
      → TelemetryFrame T S
      → Option (TrackingState F)
      → RfMetadata F
      → TelemetryFrame T S
  validate_with ctx tm none rf = tm
  validate_with ctx tm (some s) rf = apply_physics_validation w.float ctx tm s rf

  unfoldable pub message :
      Station F
      → TelemetryFrame T S
      → T
      → Option (TrackingState F)
      → RfMetadata F
      → Option ℕ
      → OpenMctRealtimeMessageV1 T F B
  message station tm physics_time physics rf vcid = record {
    apid = tm.apid;
    seq_count = tm.seq_count;
    received_at = tm.received_at;
    physics_flags = tm.physics_flags;
    source = w.to_string tm.source;
    elevation_deg = map_option (λ s. s.elevation_deg) physics;
    azimuth_deg = map_option (λ s. s.azimuth_deg) physics;
    range_km = map_option (λ s. s.range_km) physics;
    range_rate_km_s = map_option (λ s. s.range_rate_km_s) physics;
    apparent_elevation_deg =
        filter_option w.float.is_finite (map_option (λ s. s.apparent_elevation_deg) physics);
    doppler_tolerance_hz =
        map_option
          (effective_doppler_tolerance_hz w.float station.doppler_tolerance_hz
            station.nominal_carrier_hz)
          physics;
    physics_flags_v2 = tm.physics_flags_v2;
    onboard_time = tm.onboard_time;
    physics_time = physics_time;
    rf_matched = not (metadata_is_empty rf);
    vcid = vcid;
    payload_base64 = w.base64 (payload tm);
  }

  -- From the serialization on.
  abbrev pub finish : ℕ → Option J → SharedGateway T F J → SharedGateway T F J × Option J
  finish latency_ms none g = (count_serialize_error g, none)
  finish latency_ms (some json) g = (count_emitted latency_ms g, some json)

  -- From `let now = Utc::now()` on.
  unfoldable pub emit :
      TelemetryFrame T S
      → OpenMctRealtimeMessageV1 T F B
      → SharedGateway T F J
      → SharedGateway T F J × Option J
  emit tm msg g =
      let latency_ms = above_zero (w.chrono.milliseconds_between (w.now g.clock) tm.received_at) in
      finish latency_ms (w.to_json msg) (record g { clock = g.clock + 1 })

  -- A packet that was parsed.
  unfoldable pub process_parsed :
      TelemetryFrame T S
      → Option (RfMetadata F)
      → Option ℕ
      → SharedGateway T F J
      → SharedGateway T F J × Option J
  process_parsed tm0 explicit_rf vcid g =
      let (tm1, physics_time) = resolve_frame_time w.chrono w.float g.station.time tm0 in
      let (g1, rf) = receiver_metadata explicit_rf tm1.received_at g in
      let (g2, physics) = physics_at physics_time g1 in
      let tm = validate_with g.validation tm1 physics rf in
      emit tm (message g.station tm physics_time physics rf vcid) (count_anomaly tm g2)

  abbrev pub process_result :
      Result (CcsdsError H) (TelemetryFrame T S)
      → Option (RfMetadata F)
      → Option ℕ
      → SharedGateway T F J
      → SharedGateway T F J × Option J
  process_result (err e) explicit_rf vcid g = (count_parse_error g, none)
  process_result (ok tm) explicit_rf vcid g = process_parsed tm explicit_rf vcid g

  unfoldable pub process_inner :
      RawFrame T S
      → Option (RfMetadata F)
      → Option ℕ
      → SharedGateway T F J
      → SharedGateway T F J × Option J
  process_inner frame explicit_rf vcid g =
      process_result (parse_telemetry w.from_be_bytes frame) explicit_rf vcid g

  abbrev pub process_frame : RawFrame T S → SharedGateway T F J → SharedGateway T F J × Option J
  process_frame frame g = process_inner frame none none g

  abbrev pub process_packet :
      RawFrame T S → Option ℕ → SharedGateway T F J → SharedGateway T F J × Option J
  process_packet frame vcid g = process_inner frame none vcid g

  abbrev pub process_frame_with_rf :
      RawFrame T S → RfMetadata F → SharedGateway T F J → SharedGateway T F J × Option J
  process_frame_with_rf frame rf g = process_inner frame (some rf) none g
