-- ===== src/Validate/Flags.antt =====
-- Each bit of `physics_flags` says whether its own check failed, and no other check disturbs it.
use chronus_gateway.Prelude.{ℕ, ◌+◌, ◌*◌, ◌<◌, ◌≡◌, refl, Bool, ◌&&◌, is_some_and, one_if, arith}
use chronus_gateway.Floats.{Float}
use chronus_gateway.Words.{bit_set}
use chronus_gateway.Rf.{RfMetadata}
use chronus_gateway.Ccsds.{TelemetryFrame, user_data}
use chronus_gateway.Hil.{DecodedHilTmV1, decode_hil_tm_v1}
use chronus_gateway.Validate.{TrackingState, HilSubsystemCvParams, ValidationContext, allows_apid}
use chronus_gateway.Validate.Checks.{
  is_below_horizon, is_doppler_anomaly, is_link_budget_anomaly, is_pointing_anomaly,
  is_body_rate_anomaly, is_eps_anomaly, is_thermal_anomaly, apply_physics_validation,
}
use chronus_gateway.Validate.Sum.{one_if-lt, bit_of, decoded_and, raise_four, hil_block-sum}

-- The sum of the masks of the checks that failed, in the order of the masks.
abbrev weight : (b0 b1 b2 b3 b4 b5 b6 : Bool) → ℕ
weight b0 b1 b2 b3 b4 b5 b6 =
    one_if b1 * 2
    + one_if b0 * 1
    + one_if b2 * 4
    + one_if b3 * 8
    + one_if b6 * 64
    + one_if b4 * 16
    + one_if b5 * 32

bits-weight :
    (b0 b1 b2 b3 b4 b5 b6 : Bool)
    → let w = weight b0 b1 b2 b3 b4 b5 b6 in
      (bit_set w 0 ≡ b0)
      × (bit_set w 1 ≡ b1)
      × (bit_set w 2 ≡ b2)
      × (bit_set w 3 ≡ b3)
      × (bit_set w 4 ≡ b4)
      × (bit_set w 5 ≡ b5)
      × (bit_set w 6 ≡ b6)
      × (w < 128)
bits-weight b0 b1 b2 b3 b4 b5 b6 =
    let h0 = one_if-lt b0 in
    let h1 = one_if-lt b1 in
    let h2 = one_if-lt b2 in
    let h3 = one_if-lt b3 in
    let h4 = one_if-lt b4 in
    let h5 = one_if-lt b5 in
    let h6 = one_if-lt b6 in
    (
      bit_of b0 _ (omega arith),
      bit_of b1 _ (omega arith),
      bit_of b2 _ (omega arith),
      bit_of b3 _ (omega arith),
      bit_of b4 _ (omega arith),
      bit_of b5 _ (omega arith),
      bit_of b6 _ (omega arith),
      omega arith,
    )

module _ {F T S : Type 0} (fl : Float F) where
  -- A HIL check that failed: the parameters are there, the APID is in their range, the payload can
  -- be decoded, and the check fails on it.
  abbrev pub hil_finds :
      ValidationContext F
      → TelemetryFrame T S
      → (DecodedHilTmV1 → HilSubsystemCvParams F → Bool)
      → Bool
  hil_finds ctx frame check = is_some_and ctx.hil (λ p.
      allows_apid p frame.apid
      && decoded_and (decode_hil_tm_v1 (user_data frame)) (λ hil. check hil p))

  -- The answers of the checks, bit by bit.
  pub record Flagged (ctx : ValidationContext F) (frame : TelemetryFrame T S)
      (state : TrackingState F) (rf : RfMetadata F) (flags : ℕ) : Type 0 where
    pub doppler : bit_set flags 0 ≡ is_doppler_anomaly fl ctx state rf
    pub below_horizon : bit_set flags 1 ≡ is_below_horizon fl ctx state
    pub link_budget : bit_set flags 2 ≡ is_link_budget_anomaly fl ctx state rf
    pub pointing : bit_set flags 3 ≡ is_pointing_anomaly fl ctx state rf
    pub eps : bit_set flags 4 ≡ hil_finds ctx frame (is_eps_anomaly fl state)
    pub thermal : bit_set flags 5 ≡ hil_finds ctx frame (is_thermal_anomaly fl state)
    pub body_rate : bit_set flags 6 ≡ hil_finds ctx frame (is_body_rate_anomaly fl)
    pub no_other : flags < 128

  physics_flags-sum :
      (ctx : ValidationContext F) (frame : TelemetryFrame T S) (state : TrackingState F)
      (rf : RfMetadata F)
      → (apply_physics_validation fl ctx frame state rf).physics_flags
        ≡ weight
            (is_doppler_anomaly fl ctx state rf)
            (is_below_horizon fl ctx state)
            (is_link_budget_anomaly fl ctx state rf)
            (is_pointing_anomaly fl ctx state rf)
            (hil_finds ctx frame (is_eps_anomaly fl state))
            (hil_finds ctx frame (is_thermal_anomaly fl state))
            (hil_finds ctx frame (is_body_rate_anomaly fl))
  unfolding apply_physics_validation
  physics_flags-sum ctx frame state rf =
      let b0 = is_doppler_anomaly fl ctx state rf in
      let b1 = is_below_horizon fl ctx state in
      let b2 = is_link_budget_anomaly fl ctx state rf in
      let b3 = is_pointing_anomaly fl ctx state rf in
      let low = raise_four b0 b1 b2 b3 in
      rw low (
        hil_block-sum fl state frame.apid (user_data frame) ctx.hil
          (one_if b1 * 2 + one_if b0 * 1 + one_if b2 * 4 + one_if b3 * 8)
          (omega (arith, one_if-lt b0, one_if-lt b1, one_if-lt b2, one_if-lt b3)))

  -- Whatever flags the frame carried before, after the validation bits 0 to 6 say exactly which of
  -- the Doppler, horizon, link-budget, pointing, voltage, thermal and body-rate checks failed, the
  -- last three only where the HIL parameters are there, the APID is in their range and the payload
  -- can be decoded; and no other bit is set.
  pub apply_physics_validation-Flagged :
      (ctx : ValidationContext F) (frame : TelemetryFrame T S) (state : TrackingState F)
      (rf : RfMetadata F)
      → Flagged ctx frame state rf (apply_physics_validation fl ctx frame state rf).physics_flags
  apply_physics_validation-Flagged ctx frame state rf = rw (physics_flags-sum ctx frame state rf) (
      let b =
        bits-weight (is_doppler_anomaly fl ctx state rf) (is_below_horizon fl ctx state)
          (is_link_budget_anomaly fl ctx state rf) (is_pointing_anomaly fl ctx state rf)
          (hil_finds ctx frame (is_eps_anomaly fl state))
          (hil_finds ctx frame (is_thermal_anomaly fl state))
          (hil_finds ctx frame (is_body_rate_anomaly fl)) in
      record {
        doppler = b.0;
        below_horizon = b.1;
        link_budget = b.2;
        pointing = b.3;
        eps = b.4;
        thermal = b.5;
        body_rate = b.6;
        no_other = b.7;
      })

  -- Validating a frame again, with any other state and measurements, gives what validating it once
  -- with these gives: no stale bit stays.
  pub apply_physics_validation_again :
      (ctx : ValidationContext F) (frame : TelemetryFrame T S) (before after : TrackingState F)
      (rf_before rf_after : RfMetadata F)
      → apply_physics_validation fl ctx
          (apply_physics_validation fl ctx frame before rf_before)
          after
          rf_after
        ≡ apply_physics_validation fl ctx frame after rf_after
  unfolding apply_physics_validation
  apply_physics_validation_again ctx frame before after rf_before rf_after = refl
