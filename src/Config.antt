-- ===== src/Config.antt =====
-- crates/gateway/src/config/mod.rs: the sections of the station configuration with their defaults.
-- `S` is `String` and `P` is `PathBuf`.
pub mod Errors
pub mod Check
pub mod Valid
pub mod Bounded
pub mod Tests
use chronus_gateway.Prelude.{ℕ, Bool, true, false, Option, none, some}
use chronus_gateway.Integers.{pos}
use chronus_gateway.Floats.{Float}
use chronus_gateway.Rf.{RfConfig}
use chronus_gateway.Rf.Build.{default_rf}
use chronus_gateway.Time.{TimeConfig, no_time}
use chronus_gateway.Frames.Deframer.{FramingConfig}
use chronus_gateway.Frames.Snapshot.{FramingMode, default_framing}
use chronus_gateway.Validate.{ValidationContext, HilSubsystemCvParams}

pub data EphemerisSource (S P : Type 0) : Type 0 where
  tle_inline : S → EphemerisSource S P
  tle_file : P → EphemerisSource S P
  oem_file : P → EphemerisSource S P

pub record SiteConfig (F : Type 0) : Type 0 where
  pub latitude_deg : F
  pub longitude_deg : F
  pub altitude_m : F
  pub nominal_carrier_hz : F

pub record TrackingConfig (F S P : Type 0) : Type 0 where
  pub ephemeris : EphemerisSource S P
  pub min_recompute_interval_ms : ℕ
  pub ut1_minus_utc_s : F
  pub polar_motion_x_arcsec : F
  pub polar_motion_y_arcsec : F
  pub refraction : Bool
  pub refraction_pressure_hpa : F
  pub refraction_temperature_c : F
  pub doppler_tle_age_margin : Bool
  pub tle_error_km_at_epoch : F
  pub tle_error_growth_km_per_day : F

pub record ToleranceConfig (F : Type 0) : Type 0 where
  pub doppler_tolerance_hz : F
  pub minimum_elevation_deg : F
  pub tx_power_dbm : F
  pub tx_gain_dbi : F
  pub rx_gain_dbi : F
  pub link_budget_tolerance_db : F
  pub pointing_tolerance_deg : F

pub record HilConfig (F : Type 0) : Type 0 where
  pub tm_v1_apid_min : ℕ
  pub tm_v1_apid_max : ℕ
  pub eps_voltage_full_sun_v : F
  pub eps_voltage_eclipse_v : F
  pub thermal_c_full_sun : F
  pub thermal_c_eclipse : F
  pub eps_relative_tolerance : F
  pub thermal_absolute_tolerance_k : F
  pub body_rate_max_abs_deg_s : F

pub record HistoryConfig (P : Type 0) : Type 0 where
  pub capacity : ℕ
  pub persist_path : Option P

-- The framing section is its mode and what the deframer reads.
pub record StationConfig (F S P : Type 0) : Type 0 where
  pub site : SiteConfig F
  pub tracking : TrackingConfig F S P
  pub tolerances : ToleranceConfig F
  pub hil : HilConfig F
  pub rf : RfConfig
  pub time : TimeConfig F
  pub framing_mode : FramingMode
  pub framing : FramingConfig
  pub history : HistoryConfig P

pub record IngestConfig : Type 0 where
  pub channel_capacity : ℕ
  pub max_datagram_size : ℕ

abbrev pub default_ingest : IngestConfig
default_ingest = record { channel_capacity = 1024; max_datagram_size = 65542 }

abbrev pub default_history : {P : Type 0} → HistoryConfig P
default_history = record { capacity = 10000; persist_path = none }

module _ {F : Type 0} (fl : Float F) where
  abbrev pub default_site : SiteConfig F
  default_site = record {
    latitude_deg = fl.lit 35 0;
    longitude_deg = fl.neg (fl.lit 116 0);
    altitude_m = fl.lit 1000 0;
    nominal_carrier_hz = fl.lit 437500000 0;
  }

  -- The element set of the ISS is the argument.
  abbrev pub default_tracking : {S P : Type 0} → S → TrackingConfig F S P
  default_tracking iss_tle = record {
    ephemeris = tle_inline iss_tle;
    min_recompute_interval_ms = 10;
    ut1_minus_utc_s = fl.lit 0 0;
    polar_motion_x_arcsec = fl.lit 0 0;
    polar_motion_y_arcsec = fl.lit 0 0;
    refraction = true;
    refraction_pressure_hpa = fl.lit 1010 0;
    refraction_temperature_c = fl.lit 10 0;
    doppler_tle_age_margin = false;
    tle_error_km_at_epoch = fl.lit 1 0;
    tle_error_growth_km_per_day = fl.lit 2 0;
  }

  abbrev pub default_tolerances : ToleranceConfig F
  default_tolerances = record {
    doppler_tolerance_hz = fl.lit 150 0;
    minimum_elevation_deg = fl.lit 0 0;
    tx_power_dbm = fl.lit 30 0;
    tx_gain_dbi = fl.lit 2 0;
    rx_gain_dbi = fl.lit 5 0;
    link_budget_tolerance_db = fl.lit 3 0;
    pointing_tolerance_deg = fl.lit 25 2;
  }

  abbrev pub default_hil : HilConfig F
  default_hil = record {
    tm_v1_apid_min = 0x7B0;
    tm_v1_apid_max = 0x7BF;
    eps_voltage_full_sun_v = fl.lit 28 0;
    eps_voltage_eclipse_v = fl.lit 24 0;
    thermal_c_full_sun = fl.lit 32 0;
    thermal_c_eclipse = fl.lit 12 0;
    eps_relative_tolerance = fl.lit 1 1;
    thermal_absolute_tolerance_k = fl.lit 10 0;
    body_rate_max_abs_deg_s = fl.lit 5 0;
  }

  abbrev pub default_time : TimeConfig F
  default_time = record { format = no_time; max_skew_s = fl.lit 5 0; cuc_tai_minus_utc_s = pos 37 }

  abbrev pub default_station : {S P : Type 0} → S → StationConfig F S P
  default_station iss_tle = record {
    site = default_site;
    tracking = default_tracking iss_tle;
    tolerances = default_tolerances;
    hil = default_hil;
    rf = default_rf;
    time = default_time;
    framing_mode = default_framing.0;
    framing = default_framing.1;
    history = default_history;
  }

module _ {F S P : Type 0} where
  -- `HilSubsystemCvParams::from_station` of crates/gateway/src/validate.rs.
  abbrev pub hil_from_station : StationConfig F S P → HilSubsystemCvParams F
  hil_from_station station = record {
    hil_tm_v1_apid_min = station.hil.tm_v1_apid_min;
    hil_tm_v1_apid_max = station.hil.tm_v1_apid_max;
    hil_eps_voltage_full_sun_v = station.hil.eps_voltage_full_sun_v;
    hil_eps_voltage_eclipse_v = station.hil.eps_voltage_eclipse_v;
    hil_thermal_c_full_sun = station.hil.thermal_c_full_sun;
    hil_thermal_c_eclipse = station.hil.thermal_c_eclipse;
    hil_eps_relative_tolerance = station.hil.eps_relative_tolerance;
    hil_thermal_absolute_tolerance_k = station.hil.thermal_absolute_tolerance_k;
    hil_body_rate_max_abs_deg_s = station.hil.body_rate_max_abs_deg_s;
  }

  -- `ValidationContext::from_station`.
  abbrev pub context_from_station : StationConfig F S P → ValidationContext F
  context_from_station station = record {
    nominal_carrier_hz = station.site.nominal_carrier_hz;
    doppler_tolerance_hz = station.tolerances.doppler_tolerance_hz;
    minimum_elevation_deg = station.tolerances.minimum_elevation_deg;
    pointing_tolerance_deg = station.tolerances.pointing_tolerance_deg;
    link_budget = some (record {
      tx_power_dbm = station.tolerances.tx_power_dbm;
      tx_gain_dbi = station.tolerances.tx_gain_dbi;
      rx_gain_dbi = station.tolerances.rx_gain_dbi;
      tolerance_db = station.tolerances.link_budget_tolerance_db;
    });
    hil = some (hil_from_station station);
  }
