-- ===== src/Rf/Build.antt =====
-- The builders of samples and of receiver metadata, and the snapshot of the RF store.
use chronus_gateway.Prelude.{false, ℕ, Bool, true, false, ◌&&◌, Option, none, some, ◌==◌, length}
use chronus_gateway.Integers.{ℤ}
use chronus_gateway.Rf.{RfConfig, RfSampleV1, RfMetadata, RfStore}

abbrev pub is_none {ℓ} : {A : Type ℓ} → Option A → Bool
is_none none = true
is_none (some _) = false

module _ {F : Type 0} where
  abbrev pub new_sample : RfSampleV1 F
  new_sample = record { t = none; carrier = none; rx_power = none; az = none; el = none }

  abbrev pub sample_with_time : ℤ → RfSampleV1 F → RfSampleV1 F
  sample_with_time t s = record s { t = some t }

  abbrev pub sample_with_carrier_hz : F → RfSampleV1 F → RfSampleV1 F
  sample_with_carrier_hz hz s = record s { carrier = some hz }

  abbrev pub sample_with_rx_power_dbm : F → RfSampleV1 F → RfSampleV1 F
  sample_with_rx_power_dbm dbm s = record s { rx_power = some dbm }

  abbrev pub sample_with_pointing_deg : F → F → RfSampleV1 F → RfSampleV1 F
  sample_with_pointing_deg az_deg el_deg s = record s { az = some az_deg; el = some el_deg }

  abbrev pub new_metadata : RfMetadata F
  new_metadata = record {
    measured_carrier_hz = none;
    measured_rx_power_dbm = none;
    measured_azimuth_deg = none;
    measured_elevation_deg = none;
  }

  abbrev pub metadata_with_carrier_hz : F → RfMetadata F → RfMetadata F
  metadata_with_carrier_hz hz m = record m { measured_carrier_hz = some hz }

  abbrev pub metadata_with_rx_power_dbm : F → RfMetadata F → RfMetadata F
  metadata_with_rx_power_dbm dbm m = record m { measured_rx_power_dbm = some dbm }

  abbrev pub metadata_with_pointing_deg : F → F → RfMetadata F → RfMetadata F
  metadata_with_pointing_deg azimuth_deg elevation_deg m = record m {
    measured_azimuth_deg = some azimuth_deg;
    measured_elevation_deg = some elevation_deg;
  }

  abbrev pub metadata_is_empty : RfMetadata F → Bool
  metadata_is_empty m =
      is_none m.measured_carrier_hz
      && is_none m.measured_rx_power_dbm
      && is_none m.measured_azimuth_deg
      && is_none m.measured_elevation_deg

  abbrev pub len : RfStore F → ℕ
  len r = length r.entries

  abbrev pub is_empty : RfStore F → Bool
  is_empty r = len r == 0

pub record RfSnapshot : Type 0 where
  pub enabled : Bool
  pub samples_received : ℕ
  pub samples_invalid : ℕ
  pub samples_evicted : ℕ
  pub frames_matched : ℕ
  pub frames_unmatched : ℕ

abbrev pub snapshot : {F : Type 0} → RfStore F → RfSnapshot
snapshot r = record {
  enabled = r.enabled;
  samples_received = r.stats.samples_received;
  samples_invalid = r.stats.samples_invalid;
  samples_evicted = r.stats.samples_evicted;
  frames_matched = r.stats.frames_matched;
  frames_unmatched = r.stats.frames_unmatched;
}

abbrev pub default_rf : RfConfig
default_rf = record { bound = false; window_ms = 250; capacity = 1024 }
