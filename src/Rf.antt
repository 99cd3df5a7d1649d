-- ===== src/Rf.antt =====
-- The RF side channel, crates/gateway/src/rf.rs: samples as datagrams, and the bounded store with
-- its lookup. `serde_json` and the tests of f64 are the fields of `Serde`. A time is a number of
-- nanoseconds.
pub mod Build
pub mod Finite
pub mod Store
pub mod Nearest
pub mod Tests
use chronus_gateway.Prelude.{
  ℕ, ◌+◌, ◌*◌, ◌/◌, ◌-◌, ◌^◌, max, Bool, true, false, not, ◌||◌, Option, none, some, List, [], ◌∷◌,
  ◌++◌, ltb, leb, if◌then◌else◌, length, drop, Result, ok, err, ◌>>=◌, ◌>>◌, reject_if,
}
use chronus_gateway.Integers.{ℤ, distance}
use chronus_gateway.Words.{Bytes, fetch_add}

-- The fields that can fail to be finite.
pub data Field : Type 0 where
  carrier_hz : Field
  rx_power_dbm : Field
  az_deg : Field
  el_deg : Field

pub data RfParseError (E S : Type 0) : Type 0 where
  json : E → RfParseError E S
  schema : S → RfParseError E S
  non_finite : Field → RfParseError E S

pub record RfSampleV1 (F : Type 0) : Type 0 where
  pub t : Option ℤ
  pub carrier : Option F
  pub rx_power : Option F
  pub az : Option F
  pub el : Option F

-- `RfWire`: a sample with its schema.
pub record RfWire (S F : Type 0) : Type 0 where
  pub chronus_schema : S
  pub sample : RfSampleV1 F

-- The crate's errors `E`, the strings `S` and f64 `F`.
pub record Serde (E S F : Type 0) : Type 0 where
  pub from_slice : Bytes → Result E (RfWire S F)
  pub to_vec : RfWire S F → Bytes
  pub rf_schema_v1 : S
  pub same_schema : S → S → Bool
  pub is_finite : F → Bool

pub record RfMetadata (F : Type 0) : Type 0 where
  pub measured_carrier_hz : Option F
  pub measured_rx_power_dbm : Option F
  pub measured_azimuth_deg : Option F
  pub measured_elevation_deg : Option F

module _ {E S F : Type 0} (serde : Serde E S F) where
  -- `v.is_some_and(|x| !x.is_finite())`.
  abbrev pub is_not_finite : Option F → Bool
  is_not_finite none = false
  is_not_finite (some x) = not (serde.is_finite x)

  -- `?` on the reader's error.
  abbrev pub from_json_error : Result E (RfWire S F) → Result (RfParseError E S) (RfWire S F)
  from_json_error (ok a) = ok a
  from_json_error (err e) = err (json e)

  unfoldable pub parse : Bytes → Result (RfParseError E S) (RfSampleV1 F)
  parse bytes = do
    w ← from_json_error (serde.from_slice bytes)
    reject_if (not (serde.same_schema w.chronus_schema serde.rf_schema_v1))
        (schema w.chronus_schema)
    reject_if (is_not_finite w.sample.carrier) (non_finite carrier_hz)
    reject_if (is_not_finite w.sample.rx_power) (non_finite rx_power_dbm)
    reject_if (is_not_finite w.sample.az) (non_finite az_deg)
    reject_if (is_not_finite w.sample.el) (non_finite el_deg)
    ok w.sample

  -- `v.filter(|x| x.is_finite())`.
  abbrev pub fin : Option F → Option F
  fin none = none
  fin (some x) = if serde.is_finite x then some x else none

  abbrev pub finite_part : RfSampleV1 F → RfSampleV1 F
  finite_part s = record {
    t = s.t;
    carrier = fin s.carrier;
    rx_power = fin s.rx_power;
    az = fin s.az;
    el = fin s.el;
  }

  unfoldable pub to_datagram : RfSampleV1 F → Bytes
  to_datagram s =
      serde.to_vec (record { chronus_schema = serde.rf_schema_v1; sample = finite_part s })

module _ {F : Type 0} where
  abbrev pub with_pointing : Option F → Option F → RfMetadata F → RfMetadata F
  with_pointing (some a) (some e) m = record m {
    measured_azimuth_deg = some a;
    measured_elevation_deg = some e;
  }
  with_pointing _ _ m = m

  abbrev pub to_metadata : RfSampleV1 F → RfMetadata F
  to_metadata s = with_pointing s.az s.el (record {
    measured_carrier_hz = s.carrier;
    measured_rx_power_dbm = s.rx_power;
    measured_azimuth_deg = none;
    measured_elevation_deg = none;
  })

pub record RfStats : Type 0 where
  pub samples_received : ℕ
  pub samples_invalid : ℕ
  pub samples_evicted : ℕ
  pub frames_matched : ℕ
  pub frames_unmatched : ℕ

-- `bound` says whether a bind address is configured.
pub record RfConfig : Type 0 where
  pub bound : Bool
  pub window_ms : ℕ
  pub capacity : ℕ

pub record Entry (F : Type 0) : Type 0 where
  pub t : ℤ
  pub meta : RfMetadata F

pub record RfStore (F : Type 0) : Type 0 where
  pub enabled : Bool
  pub capacity : ℕ
  pub window : ℕ
  pub entries : List (Entry F)
  pub stats : RfStats

-- `i64::try_from(window_ms).unwrap_or(i64::MAX / 4)`, in nanoseconds.
abbrev pub window_of : ℕ → ℕ
window_of window_ms = (if ltb window_ms (2 ^ 63) then window_ms else (2 ^ 63 - 1) / 4) * 1000000

module _ {F : Type 0} where
  abbrev pub new : RfConfig → RfStore F
  new cfg = record {
    enabled = cfg.bound;
    capacity = max cfg.capacity 1;
    window = window_of cfg.window_ms;
    entries = [];
    stats = record {
      samples_received = 0;
      samples_invalid = 0;
      samples_evicted = 0;
      frames_matched = 0;
      frames_unmatched = 0;
    };
  }

  unfoldable pub insert : ℤ → RfMetadata F → RfStore F → RfStore F
  insert t meta r =
      let st = r.stats in
      let entry : Entry F = record { t = t; meta = meta } in
      let received = record st { samples_received = fetch_add st.samples_received 1 } in
      if leb r.capacity (length r.entries)
      then record r {
        entries = drop 1 r.entries ++ entry ∷ [];
        stats = record received { samples_evicted = fetch_add st.samples_evicted 1 };
      }
      else record r { entries = r.entries ++ entry ∷ []; stats = received }

  -- `min_by_key` keeps the earlier of two entries at the same distance.
  abbrev pub nearer : Option (ℕ × RfMetadata F) → ℕ → RfMetadata F → Option (ℕ × RfMetadata F)
  nearer none d m = some (d, m)
  nearer (some (d0, m0)) d m = if ltb d d0 then some (d, m) else some (d0, m0)

  -- The chain of iterators: distance, window, minimum.
  unfoldable pub nearest :
      ℤ → ℕ → List (Entry F) → Option (ℕ × RfMetadata F) → Option (ℕ × RfMetadata F)
  nearest t window [] best = best
  nearest t window (e ∷ es) best =
      nearest t window es
        (if leb (distance e.t t) window then nearer best (distance e.t t) e.meta else best)

  abbrev pub meta_of : Option (ℕ × RfMetadata F) → Option (RfMetadata F)
  meta_of none = none
  meta_of (some (d, m)) = some m

  abbrev pub count_lookup : Option (RfMetadata F) → RfStats → RfStats
  count_lookup none st = record st { frames_unmatched = fetch_add st.frames_unmatched 1 }
  count_lookup (some m) st = record st { frames_matched = fetch_add st.frames_matched 1 }

  unfoldable pub lookup : ℤ → RfStore F → RfStore F × Option (RfMetadata F)
  lookup t r =
      let best = meta_of (nearest t r.window r.entries none) in
      if r.enabled then (record r { stats = count_lookup best r.stats }, best) else (r, none)

module _ {E S F : Type 0} (serde : Serde E S F) where
  abbrev pub unwrap_or : Option ℤ → ℤ → ℤ
  unwrap_or none now = now
  unwrap_or (some t) now = t

  abbrev pub store_sample :
      Result (RfParseError E S) (RfSampleV1 F) → ℤ → RfStore F → RfStore F × Bool
  store_sample (ok s) now r = (insert (unwrap_or s.t now) (to_metadata s) r, true)
  store_sample (err e) now r = (
    record r { stats = record r.stats { samples_invalid = fetch_add r.stats.samples_invalid 1 } },
    false,
  )

  unfoldable pub ingest_datagram : Bytes → ℤ → RfStore F → RfStore F × Bool
  ingest_datagram bytes now r = store_sample (parse serde bytes) now r
