-- ===== src/Gateway/Ledger.antt =====
-- What the processing of one packet does to the counters that are kept of it.
use chronus_gateway.Prelude.{
  ℕ, ◌+◌, ◌^◌, ◌%◌, ◌≡◌, refl, ◌∙◌, subst, ◌⊎◌, inl, inr, Option, none, some, List, Result, ok, err,
  Bool-cases, not, ◌||◌, ◌==◌,
}
use chronus_gateway.Words.{fetch_add}
use chronus_gateway.Ccsds.{RawFrame, TelemetryFrame, CcsdsError, parse_telemetry}
use chronus_gateway.Rf.{RfMetadata}
use chronus_gateway.Time.{resolve_frame_time}
use chronus_gateway.Validate.{TrackingState}
use chronus_gateway.Propagator.{TrackingProvider, tracking_state}
use chronus_gateway.History.{HistoryStore}
use chronus_gateway.Gateway.{World, SharedGateway, count_anomaly}
use chronus_gateway.Gateway.Process.{
  receiver_metadata, settle_physics, ask_physics, physics_at, emit, finish, validate_with,
  process_parsed, process_result, process_inner,
}

-- What the books hold of a gateway; the stages before the serialization leave it as it is.
pub record Ledger (F J : Type 0) : Type 0 where
  pub emitted : ℕ
  pub parse_errors : ℕ
  pub serialize_errors : ℕ
  pub latency_count : ℕ
  pub published : ℕ
  pub history : HistoryStore J F
  pub telemetry_tx : List J

-- The packets that were counted, whatever became of them.
abbrev pub tally : {F J : Type 0} → Ledger F J → ℕ
tally l = (l.emitted + l.parse_errors + l.serialize_errors) % 2 ^ 64

module _ {T F J : Type 0} where
  abbrev pub ledger : SharedGateway T F J → Ledger F J
  ledger g = record {
    emitted = g.gateway_metrics.telemetry_frames_emitted;
    parse_errors = g.gateway_metrics.telemetry_parse_errors;
    serialize_errors = g.gateway_metrics.serialize_errors;
    latency_count = g.gateway_metrics.processing_latency_ms_count;
    published = g.pipeline.messages_published;
    history = g.history;
    telemetry_tx = g.telemetry_tx;
  }

  count_anomaly-ledger :
      {S : Type 0} (tm : TelemetryFrame T S) (g : SharedGateway T F J)
      → ledger (count_anomaly tm g) ≡ ledger g
  count_anomaly-ledger tm g =
      elim (Bool-cases (not (tm.physics_flags == 0) || not (tm.physics_flags_v2 == 0))) [
        | inl e ↦ rw e refl
        | inr e ↦ rw e refl
      ]

module _ {F J : Type 0} where
  abbrev pub refused : Ledger F J → Ledger F J
  refused l = record l { parse_errors = fetch_add l.parse_errors 1 }

  abbrev pub unserialized : Ledger F J → Ledger F J
  unserialized l = record l { serialize_errors = fetch_add l.serialize_errors 1 }

  abbrev pub serialized : Ledger F J → Ledger F J
  serialized l = record l {
    emitted = fetch_add l.emitted 1;
    latency_count = fetch_add l.latency_count 1;
  }

  -- One packet in the books: refused or not serialized without a message, or serialized with one.
  abbrev pub Outcome : Ledger F J → Ledger F J → Option J → Type 0
  Outcome before after none = (after ≡ refused before) ⊎ (after ≡ unserialized before)
  Outcome before after (some json) = after ≡ serialized before

module _ {T S F J V K N B H X : Type 0} (w : World T S F J V K N B H X) where
  receiver_metadata-ledger :
      (explicit_rf : Option (RfMetadata F)) (t : T) (g : SharedGateway T F J)
      → ledger (receiver_metadata w explicit_rf t g).0 ≡ ledger g
  unfolding receiver_metadata
  receiver_metadata-ledger none t g = refl
  receiver_metadata-ledger (some rf) t g = refl

  settle_physics-ledger :
      (g : SharedGateway T F J) (provider : TrackingProvider T F) (r : Result X (TrackingState F))
      → ledger (settle_physics w g (provider, r)).0 ≡ ledger g
  settle_physics-ledger g provider (ok state) = refl
  settle_physics-ledger g provider (err e) = refl

  ask_physics-ledger :
      (tracking : Option (TrackingProvider T F)) (t : T) (g : SharedGateway T F J)
      → ledger (ask_physics w tracking t g).0 ≡ ledger g
  ask_physics-ledger none t g = refl
  ask_physics-ledger (some provider) t g =
      let (provider', r) = tracking_state w.chrono w.propagate t provider in
      settle_physics-ledger g provider' r

  finish-ledger :
      (latency : ℕ) (json : Option J) (g : SharedGateway T F J)
      → let r = finish w latency json g in Outcome (ledger g) (ledger r.0) r.1
  finish-ledger latency none g = inr refl
  finish-ledger latency (some json) g = refl

  process_parsed-ledger :
      (tm : TelemetryFrame T S) (explicit_rf : Option (RfMetadata F)) (vcid : Option ℕ)
      (g : SharedGateway T F J)
      → let r = process_parsed w tm explicit_rf vcid g in Outcome (ledger g) (ledger r.0) r.1
  unfolding process_parsed physics_at emit
  process_parsed-ledger tm explicit_rf vcid g =
      let (tm1, physics_time) = resolve_frame_time w.chrono w.float g.station.time tm in
      let measured = receiver_metadata w explicit_rf tm1.received_at g in
      let tracked = ask_physics w measured.0.tracking physics_time measured.0 in
      let tm2 = validate_with w g.validation tm1 tracked.1 measured.1 in
      let before =
        count_anomaly-ledger tm2 tracked.0
        ∙ ask_physics-ledger measured.0.tracking physics_time measured.0
        ∙ receiver_metadata-ledger explicit_rf tm1.received_at g in
      let r = process_parsed w tm explicit_rf vcid g in
      subst (λ l. Outcome l (ledger r.0) r.1) before (finish-ledger _ _ _)

  process_result-ledger :
      (parsed : Result (CcsdsError H) (TelemetryFrame T S)) (explicit_rf : Option (RfMetadata F))
      (vcid : Option ℕ) (g : SharedGateway T F J)
      → let r = process_result w parsed explicit_rf vcid g in Outcome (ledger g) (ledger r.0) r.1
  process_result-ledger (err e) explicit_rf vcid g = inl refl
  process_result-ledger (ok tm) explicit_rf vcid g = process_parsed-ledger tm explicit_rf vcid g

  -- Every packet is booked in one of three ways, and only the last gives a message.
  pub process_inner-ledger :
      (frame : RawFrame T S) (explicit_rf : Option (RfMetadata F)) (vcid : Option ℕ)
      (g : SharedGateway T F J)
      → let r = process_inner w frame explicit_rf vcid g in Outcome (ledger g) (ledger r.0) r.1
  unfolding process_inner
  process_inner-ledger frame explicit_rf vcid g =
      process_result-ledger (parse_telemetry w.from_be_bytes frame) explicit_rf vcid g
