-- ===== src/Time/Resolve.antt =====
-- The instant at which a frame is judged, and what is recorded on the frame with it.
use chronus_gateway.Prelude.{
  ◌≤◌, ◌<◌, ◌≡◌, ◌≢◌, refl, ap, ◌∙◌, true, false, not, ◌||◌, Option, none, some, ◌++◌, length, drop,
  drop-length_append, Result, ok, err, if◌then◌else◌, Bool-cases, inl, inr, arith,
}
use chronus_gateway.Words.{Bytes}
use chronus_gateway.Integers.{ℤ, in_i64}
use chronus_gateway.Floats.{Float}
use chronus_gateway.Ccsds.{TelemetryFrame, payload, user_data}
use chronus_gateway.Time.{
  Chrono, TimeConfig, TimeFormat, no_time, cds, cuc, TimeError, field_len, instant, is_none_format,
  is_skewed, forget_time, settle_time, decode_time, encode_cds, resolve_frame_time,
}
use chronus_gateway.Time.Codes.{decode_time-encode_cds, encode_cds-length}

module _ {T S : Type 0} where
  -- What a decision leaves behind: the new frame and the instant of physics, seen from the frame
  -- before it.
  pub record Resolved (before after : TelemetryFrame T S) (at : T) : Type 0 where
    -- A flag withdraws the onboard time, and without one an onboard time is the one used.
    pub distrusted : after.physics_flags_v2 ≢ 0 → at ≡ before.received_at
    pub trusted : after.physics_flags_v2 ≡ 0 → (t : T) → after.onboard_time ≡ some t → at ≡ t
    pub untimed : after.onboard_time ≡ none → (at ≡ before.received_at) × (after.time_field_len ≡ 0)
    -- The time field is inside the payload, which stays.
    pub in_payload : after.time_field_len ≤ length (payload before)
    pub same_payload : payload after ≡ payload before
    pub flags_bound : after.physics_flags_v2 < 4

forget_time-Resolved :
    {T S : Type 0} (frame : TelemetryFrame T S)
    → Resolved frame (forget_time frame) frame.received_at
forget_time-Resolved frame = record {
  distrusted = λ _. refl;
  trusted = λ _ t same. cc;
  untimed = λ _. (refl, refl);
  in_payload = omega arith;
  same_payload = refl;
  flags_bound = omega arith;
}

decode_time-eq-some :
    {T : Type 0} (ch : Chrono T) (format : TimeFormat) (bytes : Bytes) (offset : ℤ) (t : T)
    → decode_time ch format bytes offset ≡ ok (some t)
    → field_len format ≤ length bytes
unfolding decode_time
decode_time-eq-some ch no_time bytes offset t h = omega arith
decode_time-eq-some ch cds bytes offset t h = ground arith
decode_time-eq-some ch cuc bytes offset t h = ground arith

module _ {T S F : Type 0} (ch : Chrono T) (fl : Float F) where
  settle_time-Resolved :
      (cfg : TimeConfig F) (before : TelemetryFrame T S) (decoded : Result TimeError (Option T))
      → ((t : T) → decoded ≡ ok (some t) → field_len cfg.format ≤ length (payload before))
      → let settled = settle_time ch fl cfg (forget_time before) decoded in
        Resolved before settled.0 settled.1
  unfolding settle_time
  settle_time-Resolved cfg before (ok (some t)) fits =
      elim (Bool-cases (is_skewed ch fl cfg.max_skew_s t before.received_at)) [
        | inl skewed ↦ rw skewed (record {
          distrusted = λ _. refl;
          trusted = λ clear. absurd (omega arith);
          untimed = λ none_left. cc;
          in_payload = fits t refl;
          same_payload = refl;
          flags_bound = omega arith;
        })
        | inr near ↦ rw near (record {
          distrusted = λ flagged. absurd (flagged refl);
          trusted = λ _ u same. cc;
          untimed = λ none_left. cc;
          in_payload = fits t refl;
          same_payload = refl;
          flags_bound = omega arith;
        })
      ]
  settle_time-Resolved cfg before (ok none) fits = forget_time-Resolved before
  settle_time-Resolved cfg before (err e) fits = record {
    distrusted = λ _. refl;
    trusted = λ clear. absurd (omega arith);
    untimed = λ _. (refl, refl);
    in_payload = omega arith;
    same_payload = refl;
    flags_bound = omega arith;
  }

  -- Whatever the configuration and the packet, an instant other than the receive time is used only
  -- without a flag; an onboard time without a flag is the one used; without an onboard time the
  -- receive time is used and no byte of the payload is skipped; and the bytes that are skipped are
  -- inside the payload, which is not changed.
  pub resolve_frame_time-Resolved :
      (cfg : TimeConfig F) (frame : TelemetryFrame T S)
      → let resolved = resolve_frame_time ch fl cfg frame in Resolved frame resolved.0 resolved.1
  unfolding resolve_frame_time
  resolve_frame_time-Resolved cfg frame =
      elim (Bool-cases (is_none_format cfg.format || not frame.has_secondary_header)) [
        | inl untimed ↦ rw untimed (forget_time-Resolved frame)
        | inr timed ↦ rw timed (
            settle_time-Resolved cfg frame
              (decode_time ch cfg.format (payload frame) cfg.cuc_tai_minus_utc_s)
              (decode_time-eq-some ch cfg.format (payload frame) cfg.cuc_tai_minus_utc_s))
      ]

  settle_time-forget_time :
      (cfg : TimeConfig F) (frame : TelemetryFrame T S) (decoded : Result TimeError (Option T))
      → forget_time (settle_time ch fl cfg frame decoded).0 ≡ forget_time frame
  unfolding settle_time
  settle_time-forget_time cfg frame (ok (some t)) =
      elim (Bool-cases (is_skewed ch fl cfg.max_skew_s t frame.received_at)) [
        | inl skewed ↦ rw skewed refl
        | inr near ↦ rw near refl
      ]
  settle_time-forget_time cfg frame (ok none) = refl
  settle_time-forget_time cfg frame (err e) = refl

  -- Nothing but what the decision records is changed.
  pub forget_time-resolve_frame_time :
      (cfg : TimeConfig F) (frame : TelemetryFrame T S)
      → forget_time (resolve_frame_time ch fl cfg frame).0 ≡ forget_time frame
  unfolding resolve_frame_time
  forget_time-resolve_frame_time cfg frame =
      elim (Bool-cases (is_none_format cfg.format || not frame.has_secondary_header)) [
        | inl untimed ↦ rw untimed refl
        | inr timed ↦ rw timed (settle_time-forget_time cfg (forget_time frame) _)
      ]

  -- Deciding again on a frame that carries an earlier decision, with any configuration before,
  -- gives what deciding once gives: nothing of the earlier decision stays.
  pub resolve_frame_time_again :
      (before after : TimeConfig F) (frame : TelemetryFrame T S)
      → resolve_frame_time ch fl after (resolve_frame_time ch fl before frame).0
        ≡ resolve_frame_time ch fl after frame
  unfolding resolve_frame_time
  resolve_frame_time_again before after frame =
      ap
        (λ (f : TelemetryFrame T S).
          if is_none_format after.format || not f.has_secondary_header
          then (f, f.received_at)
          else settle_time ch fl after f
              (decode_time ch after.format (payload f) after.cuc_tai_minus_utc_s))
        (forget_time-resolve_frame_time before frame)

  -- A time that was decoded and is near enough is used.
  resolve_frame_time-near :
      (cfg : TimeConfig F) (frame : TelemetryFrame T S) (back : T)
      → (is_none_format cfg.format || not frame.has_secondary_header) ≡ false
      → decode_time ch cfg.format (payload frame) cfg.cuc_tai_minus_utc_s ≡ ok (some back)
      → is_skewed ch fl cfg.max_skew_s back frame.received_at ≡ false
      → resolve_frame_time ch fl cfg frame ≡ (
        record frame {
          physics_flags_v2 = 0;
          onboard_time = some back;
          time_field_len = field_len cfg.format;
        },
        back,
      )
  unfolding resolve_frame_time settle_time
  resolve_frame_time-near cfg frame back timed decoded near = rw timed (rw decoded (rw near refl))

  -- A packet whose secondary header starts with the CDS field of an instant is judged at the
  -- instant that `chrono` reads back, where the field is configured and this instant is not
  -- too far from the receive time; the frame carries it, no time flag, and as user data what
  -- follows the field.
  pub resolve_frame_time-encode_cds :
      (cfg : TimeConfig F) (frame : TelemetryFrame T S) (t back : T) (field rest : Bytes)
      → cfg.format ≡ cds
      → frame.has_secondary_header ≡ true
      → payload frame ≡ field ++ rest
      → encode_cds ch t ≡ some field
      → in_i64 (ch.timestamp_millis t) ≡ true
      → ch.from_timestamp_millis (ch.timestamp_millis t) ≡ some back
      → is_skewed ch fl cfg.max_skew_s back frame.received_at ≡ false
      → let resolved = resolve_frame_time ch fl cfg frame in
        (resolved.1 ≡ back)
        × (resolved.0.onboard_time ≡ some back)
        × (resolved.0.physics_flags_v2 ≡ 0)
        × (user_data resolved.0 ≡ rest)
  resolve_frame_time-encode_cds cfg frame t back field rest is_cds headed carries encodes fits exact
        near =
      let decoded = decode_time-encode_cds ch t field rest cfg.cuc_tai_minus_utc_s fits encodes in
      let resolved =
        resolve_frame_time-near cfg frame back (λ i. is_none_format (is_cds i) || not (headed i))
          ((λ i. decode_time ch (is_cds i) (carries i) cfg.cuc_tai_minus_utc_s)
            ∙ decoded
            ∙ ap (instant ch) exact)
          near in
      (
        ap (λ r. r.1) resolved,
        ap (λ r. r.0.onboard_time) resolved,
        ap (λ r. r.0.physics_flags_v2) resolved,
        ap (λ r. user_data r.0) resolved
            ∙ (λ i. drop (field_len (is_cds i)) (carries i))
            ∙ drop-length_append 6 field rest (encode_cds-length ch t field encodes),
      )
