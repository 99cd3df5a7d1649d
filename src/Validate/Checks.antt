-- ===== src/Validate/Checks.antt =====
-- `apply_physics_validation` and `apply_hil_subsystem_checks` of crates/gateway/src/validate.rs.
use chronus_gateway.Prelude.{
  ℕ, ◌+◌, ◌/◌, ◌%◌, Bool, ◌&&◌, Option, none, some, if◌then◌else◌, is_some_and, ◌==◌, Result, ok,
  err,
}
use chronus_gateway.Floats.{Float}
use chronus_gateway.Words.{Bytes}
use chronus_gateway.Rf.{RfMetadata}
use chronus_gateway.Ccsds.{TelemetryFrame, user_data}
use chronus_gateway.Hil.{DecodedHilTmV1, HilTmV1DecodeError, decode_hil_tm_v1}
use chronus_gateway.Validate.{
  TrackingState, HilSubsystemCvParams, ValidationContext, allows_apid, zero_f, one_f,
  pointing_elevation_deg, expected_carrier_hz, expected_rx_power_dbm, angular_separation_deg,
  effective_doppler_tolerance_hz,
}

abbrev pub flag_doppler_anomaly : ℕ
flag_doppler_anomaly = 0x01

abbrev pub flag_below_horizon : ℕ
flag_below_horizon = 0x02

abbrev pub flag_link_budget_anomaly : ℕ
flag_link_budget_anomaly = 0x04

abbrev pub flag_pointing_anomaly : ℕ
flag_pointing_anomaly = 0x08

abbrev pub flag_eps_subsystem_anomaly : ℕ
flag_eps_subsystem_anomaly = 0x10

abbrev pub flag_thermal_subsystem_anomaly : ℕ
flag_thermal_subsystem_anomaly = 0x20

abbrev pub flag_adcs_body_rate_anomaly : ℕ
flag_adcs_body_rate_anomaly = 0x40

-- `flags |= mask`, for a mask of one bit.
abbrev pub or_flag : ℕ → ℕ → ℕ
or_flag mask flags = if flags / mask % 2 == 1 then flags else flags + mask

-- `if b { flags |= mask }`
unfoldable pub raise_if : Bool → ℕ → ℕ → ℕ
raise_if b mask flags = if b then or_flag mask flags else flags

module _ {F : Type 0} (fl : Float F) where
  abbrev pub is_positive : F → Bool
  is_positive x = fl.is_finite x && fl.lt (zero_f fl) x

  -- `(a - b).abs() > tolerance`
  abbrev pub deviates : (a b tolerance : F) → Bool
  deviates a b tolerance = fl.lt tolerance (fl.abs (fl.sub a b))

  unfoldable pub is_below_horizon : ValidationContext F → TrackingState F → Bool
  is_below_horizon ctx state =
      fl.is_finite state.elevation_deg && fl.lt state.elevation_deg ctx.minimum_elevation_deg

  unfoldable pub is_doppler_anomaly : ValidationContext F → TrackingState F → RfMetadata F → Bool
  is_doppler_anomaly ctx state rf = is_some_and rf.measured_carrier_hz (λ measured.
      fl.is_finite measured
      && fl.is_finite ctx.nominal_carrier_hz
      && fl.is_finite state.range_rate_km_s
      && deviates measured (expected_carrier_hz fl ctx.nominal_carrier_hz state.range_rate_km_s)
          (effective_doppler_tolerance_hz fl ctx.doppler_tolerance_hz ctx.nominal_carrier_hz state))

  unfoldable pub is_link_budget_anomaly :
      ValidationContext F → TrackingState F → RfMetadata F → Bool
  is_link_budget_anomaly ctx state rf = is_some_and rf.measured_rx_power_dbm (λ meas_dbm.
      fl.is_finite meas_dbm
      && is_some_and ctx.link_budget (λ lb.
        is_positive lb.tolerance_db
        && fl.is_finite lb.tx_power_dbm
        && fl.is_finite lb.tx_gain_dbi
        && fl.is_finite lb.rx_gain_dbi
        && fl.is_finite state.range_km
        && is_some_and
            (expected_rx_power_dbm fl state.range_km ctx.nominal_carrier_hz lb.tx_power_dbm
              lb.tx_gain_dbi lb.rx_gain_dbi)
            (λ pred. fl.is_finite pred && deviates meas_dbm pred lb.tolerance_db)))

  unfoldable pub is_pointing_anomaly : ValidationContext F → TrackingState F → RfMetadata F → Bool
  is_pointing_anomaly ctx state rf =
      is_positive ctx.pointing_tolerance_deg
      && is_some_and rf.measured_azimuth_deg (λ maz. is_some_and rf.measured_elevation_deg (λ mel.
        fl.is_finite maz
        && fl.is_finite mel
        && fl.is_finite state.azimuth_deg
        && fl.is_finite (pointing_elevation_deg fl state)
        && is_some_and
            (angular_separation_deg fl maz mel state.azimuth_deg (pointing_elevation_deg fl state))
            (λ sep. fl.is_finite sep && fl.lt ctx.pointing_tolerance_deg sep)))

  unfoldable pub is_body_rate_anomaly : DecodedHilTmV1 → HilSubsystemCvParams F → Bool
  is_body_rate_anomaly hil p =
      let w = fl.of_f32 hil.body_rate_deg_s in
      is_positive p.hil_body_rate_max_abs_deg_s
      && fl.is_finite w
      && fl.lt p.hil_body_rate_max_abs_deg_s (fl.abs w)

  -- The illumination is there and in [0, 1].
  abbrev pub is_illuminated : TrackingState F → Bool
  is_illuminated state =
      let illum = state.nadir_sun_illum_cos in
      fl.is_finite illum && fl.le (zero_f fl) illum && fl.le illum (one_f fl)

  -- The value between eclipse and full sun.
  abbrev pub linear : (full_sun eclipse illum : F) → F
  linear full_sun eclipse illum = fl.add eclipse (fl.mul (fl.sub full_sun eclipse) illum)

  unfoldable pub is_eps_anomaly : TrackingState F → DecodedHilTmV1 → HilSubsystemCvParams F → Bool
  is_eps_anomaly state hil p =
      let full_sun = p.hil_eps_voltage_full_sun_v in
      let eclipse = p.hil_eps_voltage_eclipse_v in
      let v_exp = linear full_sun eclipse state.nadir_sun_illum_cos in
      let span = fl.abs (fl.sub full_sun eclipse) in
      let tol_v =
        fl.max (fl.mul p.hil_eps_relative_tolerance (fl.max span (fl.lit 1 6))) (fl.lit 1 6) in
      let v_meas = fl.of_f32 hil.eps_bus_voltage_v in
      is_illuminated state
      && is_positive p.hil_eps_relative_tolerance
      && fl.is_finite full_sun
      && fl.is_finite eclipse
      && fl.is_finite v_exp
      && fl.is_finite v_meas
      && deviates v_meas v_exp tol_v

  unfoldable pub is_thermal_anomaly :
      TrackingState F → DecodedHilTmV1 → HilSubsystemCvParams F → Bool
  is_thermal_anomaly state hil p =
      let full_sun = p.hil_thermal_c_full_sun in
      let eclipse = p.hil_thermal_c_eclipse in
      let t_exp = linear full_sun eclipse state.nadir_sun_illum_cos in
      let t_meas = fl.of_f32 hil.thermal_panel_c in
      is_illuminated state
      && is_positive p.hil_thermal_absolute_tolerance_k
      && fl.is_finite full_sun
      && fl.is_finite eclipse
      && fl.is_finite t_exp
      && fl.is_finite t_meas
      && deviates t_meas t_exp p.hil_thermal_absolute_tolerance_k

  unfoldable pub apply_hil_subsystem_checks :
      TrackingState F → DecodedHilTmV1 → HilSubsystemCvParams F → ℕ → ℕ
  apply_hil_subsystem_checks state hil p flags =
      let flags1 = raise_if (is_body_rate_anomaly hil p) flag_adcs_body_rate_anomaly flags in
      let flags2 = raise_if (is_eps_anomaly state hil p) flag_eps_subsystem_anomaly flags1 in
      raise_if (is_thermal_anomaly state hil p) flag_thermal_subsystem_anomaly flags2

  -- `if let Ok(hil) = decode_hil_tm_v1(…)`
  abbrev pub with_decoded :
      TrackingState F → HilSubsystemCvParams F → Result HilTmV1DecodeError DecodedHilTmV1 → ℕ → ℕ
  with_decoded state p (ok hil) flags = apply_hil_subsystem_checks state hil p flags
  with_decoded state p (err e) flags = flags

  -- The block of the feature `hil`, for a frame with this APID and these bytes.
  abbrev pub hil_block : TrackingState F → ℕ → Bytes → Option (HilSubsystemCvParams F) → ℕ → ℕ
  hil_block state apid bytes none flags = flags
  hil_block state apid bytes (some p) flags =
      if allows_apid p apid then with_decoded state p (decode_hil_tm_v1 bytes) flags else flags

  unfoldable pub apply_physics_validation :
      {T S : Type 0}
      → ValidationContext F
      → TelemetryFrame T S
      → TrackingState F
      → RfMetadata F
      → TelemetryFrame T S
  apply_physics_validation ctx frame state rf =
      let flags1 = raise_if (is_below_horizon ctx state) flag_below_horizon 0 in
      let flags2 = raise_if (is_doppler_anomaly ctx state rf) flag_doppler_anomaly flags1 in
      let flags3 = raise_if (is_link_budget_anomaly ctx state rf) flag_link_budget_anomaly flags2 in
      let flags4 = raise_if (is_pointing_anomaly ctx state rf) flag_pointing_anomaly flags3 in
      record frame { physics_flags = hil_block state frame.apid (user_data frame) ctx.hil flags4 }
