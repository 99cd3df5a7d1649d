-- ===== src/Config/Check.antt =====
-- `StationConfig::validate` and `IngestConfig::validate` of crates/gateway/src/config/mod.rs, in the
-- order of the checks.
use chronus_gateway.Prelude.{
  ℕ, ◌≡◌, Bool, true, false, not, ◌&&◌, ◌||◌, List, [], ◌∷◌, ◌==◌, ltb, if◌then◌else◌, is_some_and,
  Result, ok, err, ◌>>=◌, ◌>>◌, reject_if,
}
use chronus_gateway.Integers.{pos, le_int}
use chronus_gateway.Floats.{Float}
use chronus_gateway.History.{is_some}
use chronus_gateway.Rf.{RfConfig}
use chronus_gateway.Rf.Build.{is_none}
use chronus_gateway.Time.{TimeConfig}
use chronus_gateway.Frames.Parse.{tm_frame_min_len}
use chronus_gateway.Frames.Deframer.{FramingConfig}
use chronus_gateway.Frames.Snapshot.{FramingMode, packets, tm_frames}
use chronus_gateway.Config.Errors.{
  refraction_pressure_hpa, refraction_temperature_c, tle_error_km_at_epoch,
  tle_error_growth_km_per_day, tx_power_dbm, tx_gain_dbi, rx_gain_dbi, hil_eps_voltage_full_sun_v,
  hil_eps_voltage_eclipse_v, hil_thermal_c_full_sun, hil_thermal_c_eclipse, rf_window_ms,
  rf_capacity, time_max_skew_s, time_cuc_tai_minus_utc_s, framing_frame_length,
  framing_spacecraft_id, framing_virtual_channels, history_capacity, history_persist_path,
  invalid_latitude, invalid_longitude, invalid_altitude, invalid_frequency, empty_tle,
  invalid_doppler_tolerance, invalid_minimum_elevation, invalid_link_budget_tolerance,
  invalid_pointing_tolerance, invalid_link_budget_field, invalid_hil_tm_v1_apid_range,
  invalid_hil_eps_relative_tolerance, invalid_hil_thermal_tolerance, invalid_hil_subsystem_field,
  invalid_hil_body_rate_max_abs, invalid_channel_capacity, invalid_max_datagram_size,
  invalid_earth_orientation, invalid_refraction, invalid_tle_error_model, invalid_rf_time,
  invalid_setting, min_datagram_size, max_datagram_size_limit, rf_capacity_limit,
  rf_window_ms_limit, frame_length_limit, history_capacity_limit, ccsds_apid_max, ConfigError,
}
use chronus_gateway.Config.{
  EphemerisSource, tle_inline, tle_file, oem_file, SiteConfig, TrackingConfig, ToleranceConfig,
  HilConfig, HistoryConfig, StationConfig, IngestConfig,
}

-- `if b { return Err(e) }` for each pair, in order.
abbrev pub first_of : {E : Type 0} → List (Bool × E) → Result E (Unit {0})
first_of [] = ok tt
first_of ((b, e) ∷ checks) = if b then err e else first_of checks

-- No condition of a list holds.
abbrev pub NoneHolds : {E : Type 0} → List (Bool × E) → Type 0
NoneHolds [] = Unit
NoneHolds ((b, e) ∷ checks) = (b ≡ false) × NoneHolds checks

unfoldable pub validate_ingest : {F X : Type 0} → IngestConfig → Result (ConfigError F X) (Unit {0})
validate_ingest cfg = first_of (
    (cfg.channel_capacity == 0, invalid_channel_capacity cfg.channel_capacity)
    ∷ (
      ltb cfg.max_datagram_size min_datagram_size
          || ltb max_datagram_size_limit cfg.max_datagram_size,
      invalid_max_datagram_size cfg.max_datagram_size,
    )
    ∷ [])

-- `vcs.is_empty() || vcs.iter().any(|&v| v > 7)`.
abbrev pub any_above : ℕ → List ℕ → Bool
any_above n [] = false
any_above n (v ∷ vs) = ltb n v || any_above n vs

abbrev pub is_tm_frames : FramingMode → Bool
is_tm_frames tm_frames = true
is_tm_frames packets = false

abbrev pub is_empty_list : List ℕ → Bool
is_empty_list [] = true
is_empty_list (_ ∷ _) = false

module _ {F X P : Type 0} where
  abbrev pub framing_history_checks :
      FramingMode → FramingConfig → HistoryConfig P → List (Bool × ConfigError F X)
  framing_history_checks mode f history =
      (
        is_some_and f.frame_length (λ len. ltb len tm_frame_min_len || ltb frame_length_limit len),
        invalid_setting framing_frame_length,
      )
      ∷ (is_tm_frames mode && f.asm && is_none f.frame_length, invalid_setting framing_frame_length)
      ∷ (is_some_and f.spacecraft_id (λ id. ltb 0x3FF id), invalid_setting framing_spacecraft_id)
      ∷ (
        is_some_and f.virtual_channels (λ vcs. is_empty_list vcs || any_above 7 vcs),
        invalid_setting framing_virtual_channels,
      )
      ∷ (ltb history_capacity_limit history.capacity, invalid_setting history_capacity)
      ∷ (
        is_some history.persist_path && history.capacity == 0,
        invalid_setting history_persist_path,
      )
      ∷ []

  unfoldable pub validate_framing_history :
      FramingMode → FramingConfig → HistoryConfig P → Result (ConfigError F X) (Unit {0})
  validate_framing_history mode f history = first_of (framing_history_checks mode f history)

module _ {F : Type 0} (fl : Float F) where
  -- `!x.is_finite() || x <= 0.0`, `!x.is_finite() || x < 0.0` and
  -- `!x.is_finite() || !(low..=high).contains(&x)`.
  abbrev pub not_positive : F → Bool
  not_positive x = not (fl.is_finite x) || fl.le x (fl.lit 0 0)

  abbrev pub is_negative : F → Bool
  is_negative x = not (fl.is_finite x) || fl.lt x (fl.lit 0 0)

  abbrev pub is_outside : (low high : F) → F → Bool
  is_outside low high x = not (fl.is_finite x) || not (fl.le low x && fl.le x high)

abbrev pub is_blank_tle : {S P : Type 0} → (S → Bool) → EphemerisSource S P → Bool
is_blank_tle is_blank (tle_inline text) = is_blank text
is_blank_tle is_blank (tle_file _) = false
is_blank_tle is_blank (oem_file _) = false

abbrev pub map_orientation : {F O X : Type 0} → Result X O → Result (ConfigError F X) (Unit {0})
map_orientation (ok _) = ok tt
map_orientation (err e) = err (invalid_earth_orientation e)

module _ {F X : Type 0} (fl : Float F) where
  unfoldable pub validate_site : SiteConfig F → Result (ConfigError F X) (Unit {0})
  validate_site s = first_of (
      (
        is_outside fl (fl.neg (fl.lit 90 0)) (fl.lit 90 0) s.latitude_deg,
        invalid_latitude s.latitude_deg,
      )
      ∷ (
        is_outside fl (fl.neg (fl.lit 180 0)) (fl.lit 180 0) s.longitude_deg,
        invalid_longitude s.longitude_deg,
      )
      ∷ (not (fl.is_finite s.altitude_m), invalid_altitude s.altitude_m)
      ∷ (not_positive fl s.nominal_carrier_hz, invalid_frequency s.nominal_carrier_hz)
      ∷ [])

  -- From the Doppler tolerance to the minimum elevation.
  unfoldable pub validate_doppler_elevation :
      ToleranceConfig F → Result (ConfigError F X) (Unit {0})
  validate_doppler_elevation t = first_of (
      (not_positive fl t.doppler_tolerance_hz, invalid_doppler_tolerance t.doppler_tolerance_hz)
      ∷ (
        is_outside fl (fl.neg (fl.lit 90 0)) (fl.lit 90 0) t.minimum_elevation_deg,
        invalid_minimum_elevation t.minimum_elevation_deg,
      )
      ∷ [])

  unfoldable pub validate_link_pointing : ToleranceConfig F → Result (ConfigError F X) (Unit {0})
  validate_link_pointing t = first_of (
      (not (fl.is_finite t.tx_power_dbm), invalid_link_budget_field tx_power_dbm t.tx_power_dbm)
      ∷ (not (fl.is_finite t.tx_gain_dbi), invalid_link_budget_field tx_gain_dbi t.tx_gain_dbi)
      ∷ (not (fl.is_finite t.rx_gain_dbi), invalid_link_budget_field rx_gain_dbi t.rx_gain_dbi)
      ∷ (
        not_positive fl t.link_budget_tolerance_db,
        invalid_link_budget_tolerance t.link_budget_tolerance_db,
      )
      ∷ (
        not_positive fl t.pointing_tolerance_deg,
        invalid_pointing_tolerance t.pointing_tolerance_deg,
      )
      ∷ [])

  unfoldable pub validate_hil : HilConfig F → Result (ConfigError F X) (Unit {0})
  validate_hil h = first_of (
      (
        ltb h.tm_v1_apid_max h.tm_v1_apid_min
            || ltb ccsds_apid_max h.tm_v1_apid_min
            || ltb ccsds_apid_max h.tm_v1_apid_max,
        invalid_hil_tm_v1_apid_range h.tm_v1_apid_min h.tm_v1_apid_max ccsds_apid_max,
      )
      ∷ (
        not (fl.is_finite h.eps_voltage_full_sun_v),
        invalid_hil_subsystem_field hil_eps_voltage_full_sun_v h.eps_voltage_full_sun_v,
      )
      ∷ (
        not (fl.is_finite h.eps_voltage_eclipse_v),
        invalid_hil_subsystem_field hil_eps_voltage_eclipse_v h.eps_voltage_eclipse_v,
      )
      ∷ (
        not (fl.is_finite h.thermal_c_full_sun),
        invalid_hil_subsystem_field hil_thermal_c_full_sun h.thermal_c_full_sun,
      )
      ∷ (
        not (fl.is_finite h.thermal_c_eclipse),
        invalid_hil_subsystem_field hil_thermal_c_eclipse h.thermal_c_eclipse,
      )
      ∷ (
        not_positive fl h.eps_relative_tolerance || fl.lt (fl.lit 1 0) h.eps_relative_tolerance,
        invalid_hil_eps_relative_tolerance h.eps_relative_tolerance,
      )
      ∷ (
        not_positive fl h.thermal_absolute_tolerance_k,
        invalid_hil_thermal_tolerance h.thermal_absolute_tolerance_k,
      )
      ∷ (
        not_positive fl h.body_rate_max_abs_deg_s,
        invalid_hil_body_rate_max_abs h.body_rate_max_abs_deg_s,
      )
      ∷ [])

  unfoldable pub validate_rf_time : RfConfig → TimeConfig F → Result (ConfigError F X) (Unit {0})
  validate_rf_time r t = first_of (
      (r.window_ms == 0 || ltb rf_window_ms_limit r.window_ms, invalid_rf_time rf_window_ms)
      ∷ (r.capacity == 0 || ltb rf_capacity_limit r.capacity, invalid_rf_time rf_capacity)
      ∷ (is_negative fl t.max_skew_s, invalid_rf_time time_max_skew_s)
      ∷ (
        not (le_int (pos 0) t.cuc_tai_minus_utc_s && le_int t.cuc_tai_minus_utc_s (pos 100)),
        invalid_rf_time time_cuc_tai_minus_utc_s,
      )
      ∷ [])

module _ {F S P O X : Type 0} (fl : Float F) (is_blank : S → Bool)
    (new_orientation : (ut1 x y : F) → Result X O) where
  unfoldable pub validate_tracking : TrackingConfig F S P → Result (ConfigError F X) (Unit {0})
  validate_tracking t = do
    reject_if (is_blank_tle is_blank t.ephemeris) empty_tle
    _ ←
        map_orientation
          (new_orientation t.ut1_minus_utc_s t.polar_motion_x_arcsec t.polar_motion_y_arcsec)
    first_of (
        (
          is_outside fl (fl.lit 1 0) (fl.lit 1100 0) t.refraction_pressure_hpa,
          invalid_refraction refraction_pressure_hpa t.refraction_pressure_hpa,
        )
        ∷ (
          is_outside fl (fl.neg (fl.lit 90 0)) (fl.lit 60 0) t.refraction_temperature_c,
          invalid_refraction refraction_temperature_c t.refraction_temperature_c,
        )
        ∷ (
          is_negative fl t.tle_error_km_at_epoch,
          invalid_tle_error_model tle_error_km_at_epoch t.tle_error_km_at_epoch,
        )
        ∷ (
          is_negative fl t.tle_error_growth_km_per_day,
          invalid_tle_error_model tle_error_growth_km_per_day t.tle_error_growth_km_per_day,
        )
        ∷ [])

  unfoldable pub validate : StationConfig F S P → Result (ConfigError F X) (Unit {0})
  validate c = do
    _ ← validate_site fl c.site
    _ ← validate_doppler_elevation fl c.tolerances
    _ ← validate_tracking c.tracking
    _ ← validate_link_pointing fl c.tolerances
    _ ← validate_hil fl c.hil
    _ ← validate_rf_time fl c.rf c.time
    validate_framing_history c.framing_mode c.framing c.history
