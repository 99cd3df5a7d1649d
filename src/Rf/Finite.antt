-- ===== src/Rf/Finite.antt =====
-- What the receiver's datagrams of crates/gateway/src/rf.rs can bring into the store.
use chronus_gateway.Prelude.{
  ◌≡◌, ◌≢◌, refl, Bool, true, false, not, Option, none, some, List, [], ◌∷◌, leb, length, drop, All,
  All-append, All-drop, Result, ok, err, reject_if, Bool-cases, inl, inr, if◌then◌else◌, ℕ, ltb,
  IfOk, IfOk-ok, IfOk-bind,
}
use chronus_gateway.Integers.{ℤ, distance}
use chronus_gateway.Words.{Bytes}
use chronus_gateway.Rf.{
  RfSampleV1, RfParseError, RfMetadata, Serde, RfConfig, Entry, RfStore, is_not_finite, parse,
  with_pointing, to_metadata, new, insert, nearer, nearest, meta_of, lookup, unwrap_or,
  store_sample, ingest_datagram, non_finite, schema, from_json_error, carrier_hz, rx_power_dbm,
  az_deg, el_deg,
}

module _ {E S F : Type 0} (serde : Serde E S F) where
  abbrev pub IsFinite : Option F → Type 0
  IsFinite none = Unit
  IsFinite (some x) = serde.is_finite x ≡ true

  abbrev pub Paired : Option F → Option F → Type 0
  Paired none none = Unit
  Paired (some a) (some e) = Unit
  Paired _ _ = ⊥

  -- Every number is finite, and a direction has both of its angles.
  pub record IsSound (m : RfMetadata F) : Type 0 where
    pub carrier : IsFinite m.measured_carrier_hz
    pub rx_power : IsFinite m.measured_rx_power_dbm
    pub azimuth : IsFinite m.measured_azimuth_deg
    pub elevation : IsFinite m.measured_elevation_deg
    pub direction : Paired m.measured_azimuth_deg m.measured_elevation_deg

  abbrev pub IfSome : Option (RfMetadata F) → Type 0
  IfSome none = Unit
  IfSome (some m) = IsSound m

  record IsFiniteSample (s : RfSampleV1 F) : Type 0 where
    carrier : IsFinite s.carrier
    rx_power : IsFinite s.rx_power
    az : IsFinite s.az
    el : IsFinite s.el

  err-ok :
      {u : Unit {0}} {x : RfParseError E S}
      → ◌≢◌ {A = Result (RfParseError E S) (Unit {0})} (err x) (ok u)
  err-ok h = cc

  admitted :
      (o : Option F) (x : RfParseError E S) {u : Unit {0}}
      → ◌≡◌ {A = Result (RfParseError E S) (Unit {0})} (reject_if (is_not_finite serde o) x) (ok u)
      → IsFinite o
  admitted none x e = tt
  admitted (some v) x e = elim (Bool-cases (serde.is_finite v)) [
    | inl finite ↦ finite
    | inr wild ↦ absurd (err-ok {x = x} (rw wild at e))
  ]

  parse-IsFiniteSample : (bytes : Bytes) → IfOk IsFiniteSample (parse serde bytes)
  unfolding parse
  parse-IsFiniteSample bytes = IfOk-bind _ (from_json_error serde (serde.from_slice bytes)) _ λ w _.
      IfOk-bind _
        (reject_if (not (serde.same_schema w.chronus_schema serde.rf_schema_v1))
          (schema w.chronus_schema))
        _
        λ _ _.
          IfOk-bind _ (reject_if (is_not_finite serde w.sample.carrier) (non_finite carrier_hz)) _
            λ _ c.
              IfOk-bind _
                (reject_if (is_not_finite serde w.sample.rx_power) (non_finite rx_power_dbm)) _
                λ _ p.
                  IfOk-bind _ (reject_if (is_not_finite serde w.sample.az) (non_finite az_deg)) _
                    λ _ a.
                      IfOk-bind _ (reject_if (is_not_finite serde w.sample.el) (non_finite el_deg))
                        _
                        λ _ e. IfOk-ok _ w.sample (record {
                          carrier = admitted w.sample.carrier _ c;
                          rx_power = admitted w.sample.rx_power _ p;
                          az = admitted w.sample.az _ a;
                          el = admitted w.sample.el _ e;
                        })

  with_pointing-IsSound :
      (az el carrier rx_power : Option F)
      → IsFinite az
      → IsFinite el
      → IsFinite carrier
      → IsFinite rx_power
      → IsSound (
          with_pointing az el (record {
            measured_carrier_hz = carrier;
            measured_rx_power_dbm = rx_power;
            measured_azimuth_deg = none;
            measured_elevation_deg = none;
          }))
  with_pointing-IsSound (some a) (some e) c p fa fe fc fp = record {
    carrier = fc;
    rx_power = fp;
    azimuth = fa;
    elevation = fe;
    direction = tt;
  }
  with_pointing-IsSound none el c p fa fe fc fp = record {
    carrier = fc;
    rx_power = fp;
    azimuth = tt;
    elevation = tt;
    direction = tt;
  }
  with_pointing-IsSound (some a) none c p fa fe fc fp = record {
    carrier = fc;
    rx_power = fp;
    azimuth = tt;
    elevation = tt;
    direction = tt;
  }

  abbrev pub Stored : RfStore F → Type 0
  Stored r = All (λ (e : Entry F). IsSound e.meta) r.entries

  if-Stored : (b : Bool) (x y : RfStore F) → Stored x → Stored y → Stored (if b then x else y)
  if-Stored true x y h h' = h
  if-Stored false x y h h' = h'

  insert-Stored :
      (t : ℤ) (m : RfMetadata F) (r : RfStore F) → IsSound m → Stored r → Stored (insert t m r)
  unfolding insert
  insert-Stored t m r sound h =
      if-Stored (leb r.capacity (length r.entries)) _ _
        (All-append _ (drop 1 r.entries) _ (All-drop _ 1 r.entries h) (sound, tt))
        (All-append _ r.entries _ h (sound, tt))

  store_sample-Stored :
      (parsed : Result (RfParseError E S) (RfSampleV1 F)) (now : ℤ) (r : RfStore F)
      → IfOk IsFiniteSample parsed
      → Stored r
      → Stored (store_sample serde parsed now r).0
  store_sample-Stored (err e) now r f h = h
  store_sample-Stored (ok s) now r f h =
      let finite = f.holds s refl in
      insert-Stored (unwrap_or serde s.t now) (to_metadata s) r
        (with_pointing-IsSound s.az s.el s.carrier s.rx_power finite.az finite.el finite.carrier
          finite.rx_power)
        h

  -- The datagrams, each with the time at which it comes.
  unfoldable pub ingest_all : List (Bytes × ℤ) → RfStore F → RfStore F
  ingest_all [] r = r
  ingest_all ((bytes, now) ∷ more) r = ingest_all more (ingest_datagram serde bytes now r).0

  ingest_all-Stored : (ds : List (Bytes × ℤ)) (r : RfStore F) → Stored r → Stored (ingest_all ds r)
  unfolding ingest_all ingest_datagram
  ingest_all-Stored [] r h = h
  ingest_all-Stored ((bytes, now) ∷ more) r h =
      ingest_all-Stored more _
        (store_sample-Stored (parse serde bytes) now r (parse-IsFiniteSample bytes) h)

  nearer-IfSome :
      (b : Bool) (best : Option (ℕ × RfMetadata F)) (d : ℕ) (m : RfMetadata F)
      → IfSome (meta_of best)
      → IsSound m
      → IfSome (meta_of (if b then nearer best d m else best))
  nearer-IfSome false best d m h sound = h
  nearer-IfSome true none d m h sound = sound
  nearer-IfSome true (some (d0, m0)) d m h sound = elim (Bool-cases (ltb d d0)) [
    | inl near ↦ rw near sound
    | inr far ↦ rw far h
  ]

  nearest-IfSome :
      (t : ℤ) (window : ℕ) (es : List (Entry F)) (best : Option (ℕ × RfMetadata F))
      → All (λ (e : Entry F). IsSound e.meta) es
      → IfSome (meta_of best)
      → IfSome (meta_of (nearest t window es best))
  unfolding nearest
  nearest-IfSome t window [] best all h = h
  nearest-IfSome t window (e ∷ es) best all h =
      nearest-IfSome t window es _ all.1
        (nearer-IfSome (leb (distance e.t t) window) best (distance e.t t) e.meta h all.0)

  lookup-IfSome : (t : ℤ) (r : RfStore F) → Stored r → IfSome (lookup t r).1
  unfolding lookup
  lookup-IfSome t r h = elim (Bool-cases r.enabled) [
    | inl on ↦ rw on (nearest-IfSome t r.window r.entries none h tt)
    | inr off ↦ rw off tt
  ]

  -- Whatever datagrams come, and whatever the JSON reader makes of their octets: every measurement
  -- in a store that was new has finite numbers only and a direction with both of its angles or
  -- none, and so has the one that a lookup finds.
  pub ingest_all-IsSound :
      (cfg : RfConfig) (ds : List (Bytes × ℤ)) (t : ℤ)
      → Stored (ingest_all ds (new cfg)) × IfSome (lookup t (ingest_all ds (new cfg))).1
  ingest_all-IsSound cfg ds t =
      let stored = ingest_all-Stored ds (new cfg) tt in
      (stored, lookup-IfSome t (ingest_all ds (new cfg)) stored)
