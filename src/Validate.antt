-- ===== src/Validate.antt =====
-- The physics of crates/gateway/src/validate.rs, and the tracking state of
-- crates/gateway/src/propagator.rs, over any floating-point type.
pub mod Checks
pub mod Sum
pub mod Flags
pub mod Tests
use chronus_gateway.Prelude.{
  ℕ, Bool, true, false, not, ◌&&◌, ◌||◌, Option, none, some, if◌then◌else◌, and_then, leb, ◌==◌,
}
use chronus_gateway.Floats.{Float}
use chronus_gateway.Rf.{RfMetadata}

pub record TrackingState (F : Type 0) : Type 0 where
  pub azimuth_deg : F
  pub elevation_deg : F
  pub range_km : F
  pub range_rate_km_s : F
  pub nadir_sun_illum_cos : F
  pub apparent_elevation_deg : F
  pub range_rate_uncertainty_km_s : F

pub record LinkBudgetStationParams (F : Type 0) : Type 0 where
  pub tx_power_dbm : F
  pub tx_gain_dbi : F
  pub rx_gain_dbi : F
  pub tolerance_db : F

pub record HilSubsystemCvParams (F : Type 0) : Type 0 where
  pub hil_tm_v1_apid_min : ℕ
  pub hil_tm_v1_apid_max : ℕ
  pub hil_eps_voltage_full_sun_v : F
  pub hil_eps_voltage_eclipse_v : F
  pub hil_thermal_c_full_sun : F
  pub hil_thermal_c_eclipse : F
  pub hil_eps_relative_tolerance : F
  pub hil_thermal_absolute_tolerance_k : F
  pub hil_body_rate_max_abs_deg_s : F

abbrev pub allows_apid : {F : Type 0} → HilSubsystemCvParams F → ℕ → Bool
allows_apid p apid = leb p.hil_tm_v1_apid_min apid && leb apid p.hil_tm_v1_apid_max

-- The build with the feature `hil`.
pub record ValidationContext (F : Type 0) : Type 0 where
  pub nominal_carrier_hz : F
  pub doppler_tolerance_hz : F
  pub minimum_elevation_deg : F
  pub pointing_tolerance_deg : F
  pub link_budget : Option (LinkBudgetStationParams F)
  pub hil : Option (HilSubsystemCvParams F)

module _ {F : Type 0} (fl : Float F) where
  abbrev pub zero_f : F
  zero_f = fl.lit 0 0

  abbrev pub one_f : F
  one_f = fl.lit 1 0

  abbrev pub speed_of_light_m_s : F
  speed_of_light_m_s = fl.lit 299792458 0

  abbrev pub new_context : F → ValidationContext F
  new_context nominal_carrier_hz = record {
    nominal_carrier_hz = nominal_carrier_hz;
    doppler_tolerance_hz = fl.lit 150 0;
    minimum_elevation_deg = zero_f;
    pointing_tolerance_deg = zero_f;
    link_budget = none;
    hil = none;
  }

  abbrev pub new_tracking_state : (azimuth elevation range range_rate : F) → TrackingState F
  new_tracking_state azimuth_deg elevation_deg range_km range_rate_km_s = record {
    azimuth_deg = azimuth_deg;
    elevation_deg = elevation_deg;
    range_km = range_km;
    range_rate_km_s = range_rate_km_s;
    nadir_sun_illum_cos = fl.nan;
    apparent_elevation_deg = fl.nan;
    range_rate_uncertainty_km_s = zero_f;
  }

  abbrev pub pointing_elevation_deg : TrackingState F → F
  pointing_elevation_deg s =
      if fl.is_finite s.apparent_elevation_deg then s.apparent_elevation_deg else s.elevation_deg

  abbrev pub expected_carrier_hz : (nominal_hz range_rate_km_s : F) → F
  expected_carrier_hz nominal_hz range_rate_km_s =
      let v_m_s = fl.mul range_rate_km_s (fl.lit 1000 0) in
      fl.sub nominal_hz (fl.mul nominal_hz (fl.div v_m_s speed_of_light_m_s))

  abbrev pub free_space_path_loss_db : (range_m carrier_hz : F) → Option F
  free_space_path_loss_db range_m carrier_hz =
      let lambda = fl.div speed_of_light_m_s carrier_hz in
      let ratio = fl.div (fl.mul (fl.mul (fl.lit 4 0) fl.pi) range_m) lambda in
      if not (fl.is_finite range_m && fl.is_finite carrier_hz)
        || fl.le range_m zero_f
        || fl.le carrier_hz zero_f
      then none
      else if not (fl.is_finite lambda && fl.lt zero_f lambda)
      then none
      else if not (fl.is_finite ratio && fl.lt zero_f ratio)
      then none
      else some (fl.mul (fl.lit 20 0) (fl.log10 ratio))

  abbrev pub expected_rx_power_dbm :
      (range_km carrier_hz tx_power_dbm tx_gain_dbi rx_gain_dbi : F) → Option F
  expected_rx_power_dbm range_km carrier_hz tx_power_dbm tx_gain_dbi rx_gain_dbi =
      and_then (free_space_path_loss_db (fl.mul range_km (fl.lit 1000 0)) carrier_hz)
        (λ l_fs. some (fl.sub (fl.add (fl.add tx_power_dbm tx_gain_dbi) rx_gain_dbi) l_fs))

  abbrev pub az_el_to_enu_unit : (az_deg el_deg : F) → Option (F × F × F)
  az_el_to_enu_unit az_deg el_deg =
      let az = fl.to_radians az_deg in
      let el = fl.to_radians el_deg in
      let ce = fl.cos el in
      let e = fl.mul ce (fl.sin az) in
      let n = fl.mul ce (fl.cos az) in
      let u = fl.sin el in
      if not (fl.is_finite ce)
      then none
      else if not (fl.is_finite e && fl.is_finite n && fl.is_finite u)
      then none
      else some (e, n, u)

  abbrev pub angular_separation_deg : (az1_deg el1_deg az2_deg el2_deg : F) → Option F
  angular_separation_deg az1_deg el1_deg az2_deg el2_deg =
      if not (
        fl.is_finite az1_deg
        && fl.is_finite el1_deg
        && fl.is_finite az2_deg
        && fl.is_finite el2_deg)
      then none
      else and_then (az_el_to_enu_unit az1_deg el1_deg) (λ u1.
        and_then (az_el_to_enu_unit az2_deg el2_deg) (λ u2.
          let dot = fl.add (fl.add (fl.mul u1.0 u2.0) (fl.mul u1.1 u2.1)) (fl.mul u1.2 u2.2) in
          let clamped = fl.clamp dot (fl.neg one_f) one_f in
          some (fl.to_degrees (fl.acos clamped))))

  abbrev pub effective_doppler_tolerance_hz :
      (doppler_tolerance_hz nominal_carrier_hz : F) → TrackingState F → F
  effective_doppler_tolerance_hz doppler_tolerance_hz nominal_carrier_hz state =
      let u = state.range_rate_uncertainty_km_s in
      let margin =
        fl.div (fl.mul nominal_carrier_hz (fl.mul u (fl.lit 1000 0))) speed_of_light_m_s in
      if fl.is_finite u && fl.lt zero_f u && fl.is_finite nominal_carrier_hz
      then fl.add doppler_tolerance_hz margin
      else doppler_tolerance_hz
