-- ===== src/Config/Errors.antt =====
-- `ConfigError` and the limits of crates/gateway/src/config/mod.rs. The display texts of the errors
-- are left out.
use chronus_gateway.Prelude.{ℕ, ◌^◌}
use chronus_gateway.Frames.Parse.{tm_frame_max_len}

-- The names of settings that the errors carry.
pub data Setting : Type 0 where
  refraction_pressure_hpa : Setting
  refraction_temperature_c : Setting
  tle_error_km_at_epoch : Setting
  tle_error_growth_km_per_day : Setting
  tx_power_dbm : Setting
  tx_gain_dbi : Setting
  rx_gain_dbi : Setting
  hil_eps_voltage_full_sun_v : Setting
  hil_eps_voltage_eclipse_v : Setting
  hil_thermal_c_full_sun : Setting
  hil_thermal_c_eclipse : Setting
  rf_window_ms : Setting
  rf_capacity : Setting
  time_max_skew_s : Setting
  time_cuc_tai_minus_utc_s : Setting
  framing_frame_length : Setting
  framing_spacecraft_id : Setting
  framing_virtual_channels : Setting
  history_capacity : Setting
  history_persist_path : Setting

-- `X` is what `EarthOrientation::new` fails with.
pub data ConfigError (F X : Type 0) : Type 0 where
  invalid_latitude : F → ConfigError F X
  invalid_longitude : F → ConfigError F X
  invalid_altitude : F → ConfigError F X
  invalid_frequency : F → ConfigError F X
  empty_tle : ConfigError F X
  invalid_doppler_tolerance : F → ConfigError F X
  invalid_minimum_elevation : F → ConfigError F X
  invalid_link_budget_tolerance : F → ConfigError F X
  invalid_pointing_tolerance : F → ConfigError F X
  invalid_link_budget_field : Setting → F → ConfigError F X
  invalid_hil_tm_v1_apid_range : (least most apid_max : ℕ) → ConfigError F X
  invalid_hil_eps_relative_tolerance : F → ConfigError F X
  invalid_hil_thermal_tolerance : F → ConfigError F X
  invalid_hil_subsystem_field : Setting → F → ConfigError F X
  invalid_hil_body_rate_max_abs : F → ConfigError F X
  invalid_channel_capacity : ℕ → ConfigError F X
  invalid_max_datagram_size : ℕ → ConfigError F X
  invalid_earth_orientation : X → ConfigError F X
  invalid_refraction : Setting → F → ConfigError F X
  invalid_tle_error_model : Setting → F → ConfigError F X
  invalid_rf_time : Setting → ConfigError F X
  invalid_setting : Setting → ConfigError F X

abbrev pub min_datagram_size : ℕ
min_datagram_size = 6

abbrev pub max_datagram_size_limit : ℕ
max_datagram_size_limit = 2 ^ 20

abbrev pub rf_capacity_limit : ℕ
rf_capacity_limit = 65536

abbrev pub rf_window_ms_limit : ℕ
rf_window_ms_limit = 60000

abbrev pub frame_length_limit : ℕ
frame_length_limit = tm_frame_max_len

abbrev pub history_capacity_limit : ℕ
history_capacity_limit = 500000

abbrev pub ccsds_apid_max : ℕ
ccsds_apid_max = 0x7FF
