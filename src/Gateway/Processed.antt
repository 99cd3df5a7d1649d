-- ===== src/Gateway/Processed.antt =====
-- What the message of a packet says.
use chronus_gateway.Prelude.{
  ℕ, ◌≡◌, refl, ap, sym, ◌∙◌, Option, none, some, Result, ok, err, subst, >>=-eq-ok, reject_if, ltb,
  not, length, ◌+◌, arith,
}
use chronus_gateway.Ccsds.{
  RawFrame, TelemetryFrame, payload, parse_telemetry, accepted_frame, from_header, too_short,
  not_telemetry,
}
use chronus_gateway.Rf.{RfMetadata, lookup}
use chronus_gateway.Rf.Build.{new_metadata, metadata_is_empty}
use chronus_gateway.Propagator.{TrackingProvider, tracking_state}
use chronus_gateway.Validate.{TrackingState, ValidationContext}
use chronus_gateway.Validate.Checks.{apply_physics_validation}
use chronus_gateway.Validate.Flags.{Flagged, apply_physics_validation-Flagged}
use chronus_gateway.Time.{resolve_frame_time}
use chronus_gateway.Time.Resolve.{
  Resolved, resolve_frame_time-Resolved, forget_time-resolve_frame_time,
}
use chronus_gateway.Gateway.{World, SharedGateway, OpenMctRealtimeMessageV1}
use chronus_gateway.Gateway.Process.{
  map_option, metadata_or_default, settle_physics, receiver_metadata, ask_physics, physics_at,
  validate_with, message, finish, emit, process_parsed, process_result, process_inner,
}

-- The answer, where there is one.
abbrev pub ok_of : {A E : Type 0} → Result E A → Option A
ok_of (ok a) = some a
ok_of (err e) = none

module _ {T S F J V K N B H X : Type 0} (w : World T S F J V K N B H X) where
  -- The flags without a tracking state, and with one.
  abbrev pub Judged :
      ValidationContext F
      → TelemetryFrame T S
      → Option (TrackingState F)
      → RfMetadata F
      → ℕ
      → Type 0
  Judged ctx tm none rf flags = flags ≡ 0
  Judged ctx tm (some s) rf flags = Flagged w.float ctx tm s rf flags

  -- The tracking state is what the backend answers for the instant, if it answers with one.
  abbrev pub Tracks : Option (TrackingProvider T F) → T → Option (TrackingState F) → Type 0
  Tracks none time physics = physics ≡ none
  Tracks (some provider) time physics =
      physics ≡ ok_of (tracking_state w.chrono w.propagate time provider).1

  abbrev pub Found : Option (RfMetadata F) → RfMetadata F → Type 0
  Found none rf = rf ≡ new_metadata
  Found (some m) rf = rf ≡ m

  -- The measurements are those given with the packet, or else those of the sample that the store
  -- finds for the receive time.
  abbrev pub Measures : Option (RfMetadata F) → T → SharedGateway T F J → RfMetadata F → Type 0
  Measures (some m) received_at g rf = rf ≡ m
  Measures none received_at g rf = Found (lookup (w.nanoseconds received_at) g.rf).1 rf

  -- A message `msg` for the accepted packet `tm`.
  pub record Describes (g : SharedGateway T F J) (tm : TelemetryFrame T S)
      (explicit_rf : Option (RfMetadata F)) (vcid : Option ℕ) (msg : OpenMctRealtimeMessageV1 T F B)
      : Type 0 where
    pub apid_is : msg.apid ≡ tm.apid
    pub seq_count_is : msg.seq_count ≡ tm.seq_count
    pub received_at_is : msg.received_at ≡ tm.received_at
    pub source_is : msg.source ≡ w.to_string tm.source
    pub payload_is : msg.payload_base64 ≡ w.base64 (payload tm)
    pub vcid_is : msg.vcid ≡ vcid
    -- The frame with its time, the tracking state and the measurements.
    pub timed : TelemetryFrame T S
    pub physics : Option (TrackingState F)
    pub rf : RfMetadata F
    pub resolved : Resolved tm timed msg.physics_time
    pub onboard_time_is : msg.onboard_time ≡ timed.onboard_time
    pub flags_v2_is : msg.physics_flags_v2 ≡ timed.physics_flags_v2
    pub timed_is : (timed, msg.physics_time) ≡ resolve_frame_time w.chrono w.float g.station.time tm
    pub tracked : Tracks g.tracking msg.physics_time physics
    pub measured : Measures explicit_rf tm.received_at g rf
    pub judged : Judged g.validation timed physics rf msg.physics_flags
    pub elevation_is : msg.elevation_deg ≡ map_option (λ s. s.elevation_deg) physics
    pub azimuth_is : msg.azimuth_deg ≡ map_option (λ s. s.azimuth_deg) physics
    pub range_is : msg.range_km ≡ map_option (λ s. s.range_km) physics
    pub range_rate_is : msg.range_rate_km_s ≡ map_option (λ s. s.range_rate_km_s) physics
    pub rf_matched_is : msg.rf_matched ≡ not (metadata_is_empty rf)

  finish-json :
      (latency : ℕ) (json : Option J) (g : SharedGateway T F J) → (finish w latency json g).1 ≡ json
  finish-json latency none g = refl
  finish-json latency (some json) g = refl

  -- Validation changes only the flags, and they answer the checks.
  validate_with-Judged :
      (ctx : ValidationContext F) (tm : TelemetryFrame T S) (physics : Option (TrackingState F))
      (rf : RfMetadata F)
      → tm.physics_flags ≡ 0
      → Judged ctx tm physics rf (validate_with w ctx tm physics rf).physics_flags
  validate_with-Judged ctx tm none rf clear = clear
  validate_with-Judged ctx tm (some s) rf clear =
      apply_physics_validation-Flagged w.float ctx tm s rf

  validate_with-rest :
      (ctx : ValidationContext F) (tm : TelemetryFrame T S) (physics : Option (TrackingState F))
      (rf : RfMetadata F)
      → record (validate_with w ctx tm physics rf) { physics_flags = 0 }
        ≡ record tm { physics_flags = 0 }
  unfolding apply_physics_validation
  validate_with-rest ctx tm none rf = refl
  validate_with-rest ctx tm (some s) rf = refl

  receiver_metadata-tracking :
      (explicit_rf : Option (RfMetadata F)) (t : T) (g : SharedGateway T F J)
      → (receiver_metadata w explicit_rf t g).0.tracking ≡ g.tracking
  unfolding receiver_metadata
  receiver_metadata-tracking none t g = refl
  receiver_metadata-tracking (some rf) t g = refl

  metadata_or_default-Found : (o : Option (RfMetadata F)) → Found o (metadata_or_default o)
  metadata_or_default-Found none = refl
  metadata_or_default-Found (some m) = refl

  receiver_metadata-Measures :
      (explicit_rf : Option (RfMetadata F)) (t : T) (g : SharedGateway T F J)
      → Measures explicit_rf t g (receiver_metadata w explicit_rf t g).1
  unfolding receiver_metadata
  receiver_metadata-Measures none t g = metadata_or_default-Found (lookup (w.nanoseconds t) g.rf).1
  receiver_metadata-Measures (some m) t g = refl

  settle_physics-ok_of :
      (g : SharedGateway T F J) (answer : TrackingProvider T F × Result X (TrackingState F))
      → (settle_physics w g answer).1 ≡ ok_of answer.1
  settle_physics-ok_of g (provider, ok s) = refl
  settle_physics-ok_of g (provider, err x) = refl

  ask_physics-Tracks :
      (o : Option (TrackingProvider T F)) (time : T) (g : SharedGateway T F J)
      → Tracks o time (ask_physics w o time g).1
  ask_physics-Tracks none time g = refl
  ask_physics-Tracks (some provider) time g =
      settle_physics-ok_of g (tracking_state w.chrono w.propagate time provider)

  process_parsed-Describes :
      (tm : TelemetryFrame T S) (explicit_rf : Option (RfMetadata F)) (vcid : Option ℕ)
      (g : SharedGateway T F J)
      → tm.physics_flags ≡ 0
      → (msg : OpenMctRealtimeMessageV1 T F B) × Describes g tm explicit_rf vcid msg
        × ((process_parsed w tm explicit_rf vcid g).1 ≡ w.to_json msg)
  unfolding process_parsed physics_at emit message
  process_parsed-Describes tm explicit_rf vcid g clear =
      let time = resolve_frame_time w.chrono w.float g.station.time tm in
      let kept = forget_time-resolve_frame_time w.chrono w.float g.station.time tm in
      let measured = receiver_metadata w explicit_rf time.0.received_at g in
      let tracked = ask_physics w measured.0.tracking time.1 measured.0 in
      let judged = validate_with w g.validation time.0 tracked.1 measured.1 in
      let rest = validate_with-rest g.validation time.0 tracked.1 measured.1 in
      (
        message w g.station judged time.1 tracked.1 measured.1 vcid,
        record {
          apid_is = ap (λ f. f.apid) rest ∙ ap (λ f. f.apid) kept;
          seq_count_is = ap (λ f. f.seq_count) rest ∙ ap (λ f. f.seq_count) kept;
          received_at_is = ap (λ f. f.received_at) rest ∙ ap (λ f. f.received_at) kept;
          source_is = ap (λ f. w.to_string f.source) rest ∙ ap (λ f. w.to_string f.source) kept;
          payload_is = ap (λ f. w.base64 (payload f)) rest ∙ ap (λ f. w.base64 (payload f)) kept;
          vcid_is = refl;
          timed = time.0;
          physics = tracked.1;
          rf = measured.1;
          resolved = resolve_frame_time-Resolved w.chrono w.float g.station.time tm;
          onboard_time_is = ap (λ f. f.onboard_time) rest;
          flags_v2_is = ap (λ f. f.physics_flags_v2) rest;
          timed_is = refl;
          tracked =
              subst (λ o. Tracks o time.1 tracked.1)
                (receiver_metadata-tracking explicit_rf time.0.received_at g)
                (ask_physics-Tracks measured.0.tracking time.1 measured.0);
          measured =
              subst (λ t. Measures explicit_rf t g measured.1) (ap (λ f. f.received_at) kept)
                (receiver_metadata-Measures explicit_rf time.0.received_at g);
          judged =
              validate_with-Judged g.validation time.0 tracked.1 measured.1
                (ap (λ f. f.physics_flags) kept ∙ clear);
          elevation_is = refl;
          azimuth_is = refl;
          range_is = refl;
          range_rate_is = refl;
          rf_matched_is = refl;
        },
        finish-json _ _ _,
      )

  parse_telemetry-clear :
      (raw : RawFrame T S) (tm : TelemetryFrame T S)
      → parse_telemetry w.from_be_bytes raw ≡ ok tm
      → tm.physics_flags ≡ 0
  unfolding parse_telemetry
  parse_telemetry-clear raw tm e =
      let n = length raw.bytes in
      let (_, _, e1) = >>=-eq-ok (reject_if (ltb n 6) (too_short n)) _ e in
      let (h, _, e2) = >>=-eq-ok (from_header (w.from_be_bytes raw.bytes)) _ e1 in
      let (_, _, e3) = >>=-eq-ok (reject_if (ltb n (6 + (h.data_len + 1))) _) _ e2 in
      let (_, _, e4) = >>=-eq-ok (reject_if (not h.is_tm) (not_telemetry h.apid)) _ e3 in
      let same : accepted_frame raw h ≡ tm = ground arith in sym (ap (λ f. f.physics_flags) same)

  -- A packet that is accepted always gives what the serializer makes of one message, whatever the
  -- tracking backend, the time code and the receiver do. The message has the packet's identity and
  -- payload, the instant and the time flags of the time decision, the geometry that the backend
  -- answers for this instant, if it does, no flag without a tracking state, and with one exactly
  -- the flags of the checks on this state and on the measurements given with the packet or, where
  -- none are, on those that the side channel finds for its receive time.
  pub process_inner-Describes :
      (frame : RawFrame T S) (tm : TelemetryFrame T S) (explicit_rf : Option (RfMetadata F))
      (vcid : Option ℕ) (g : SharedGateway T F J)
      → parse_telemetry w.from_be_bytes frame ≡ ok tm
      → (msg : OpenMctRealtimeMessageV1 T F B) × Describes g tm explicit_rf vcid msg
        × ((process_inner w frame explicit_rf vcid g).1 ≡ w.to_json msg)
  unfolding process_inner
  process_inner-Describes frame tm explicit_rf vcid g e =
      let (msg, describes, gives) =
        process_parsed-Describes tm explicit_rf vcid g (parse_telemetry-clear frame tm e) in
      (msg, describes, ap (λ parsed. (process_result w parsed explicit_rf vcid g).1) e ∙ gives)
