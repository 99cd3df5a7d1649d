-- ===== src/Propagator.antt =====
-- crates/gateway/src/propagator.rs: the SGP4 backend over the crate `ephemerust`, which is the
-- record `Ephemerust`, and the throttled front-end `TrackingProvider`. The build has the feature
-- `hil`.
pub mod Throttle
pub mod Tests
use chronus_gateway.Prelude.{
  ℕ, ◌*◌, ◌-◌, ◌^◌, Bool, true, false, not, ◌&&◌, Option, none, some, List, ltb, if◌then◌else◌,
  Result, ok, err, ◌>>=◌, ok_or,
}
use chronus_gateway.Integers.{ℤ, pos, negsuc, distance, le_int}
use chronus_gateway.Floats.{Float}
use chronus_gateway.Time.{Chrono}
use chronus_gateway.Validate.{TrackingState, new_tracking_state}

abbrev pub Vec3 : Type 0 → Type 0
Vec3 F = F × F × F

pub record LookAngles (F : Type 0) : Type 0 where
  pub azimuth_deg : F
  pub elevation_deg : F
  pub range_km : F
  pub range_rate_km_s : F

pub record ObserverLocation (F : Type 0) : Type 0 where
  pub latitude : F
  pub longitude : F
  pub elevation : F

pub record OrbitState (F : Type 0) : Type 0 where
  pub position_km : Vec3 F
  pub velocity_km_s : Vec3 F

pub data ShadowState : Type 0 where
  sunlit : ShadowState
  penumbra : ShadowState
  umbra : ShadowState

-- What the code calls of the crate: `P` is its `Propagator`, `O` its `EarthOrientation` and `X` its
-- error. `plus_seconds` is `chrono`'s sum of an instant and whole seconds.
pub record Ephemerust (T F P O X : Type 0) : Type 0 where
  pub look_angles_with_eop : P → T → ObserverLocation F → O → Result X (LookAngles F)
  pub propagate : P → T → Result X (OrbitState F)
  pub refraction_deg_with_conditions : (geometric_deg pressure_hpa temperature_c : F) → F
  pub sun_vector_km : T → Result X (Vec3 F)
  pub shadow_state_from_vectors : Vec3 F → Vec3 F → ShadowState
  pub plus_seconds : T → ℤ → T

pub record StationModel (F O : Type 0) : Type 0 where
  pub latitude_deg : F
  pub longitude_deg : F
  pub altitude_m : F
  pub earth_orientation : O
  pub refraction : Option (F × F)

pub record TleErrorModel (F : Type 0) : Type 0 where
  pub km_at_epoch : F
  pub growth_km_per_day : F

pub record EphemerustPropagator (T F P O : Type 0) : Type 0 where
  pub propagator : P
  pub tle_epoch : T
  pub station : StationModel F O
  pub tle_error : Option (TleErrorModel F)

module _ {F : Type 0} where
  abbrev pub with_sun_illumination : F → TrackingState F → TrackingState F
  with_sun_illumination cosine s = record s { nadir_sun_illum_cos = cosine }

  abbrev pub with_apparent_elevation : F → TrackingState F → TrackingState F
  with_apparent_elevation deg s = record s { apparent_elevation_deg = deg }

  abbrev pub with_range_rate_uncertainty : F → TrackingState F → TrackingState F
  with_range_rate_uncertainty km_s s = record s { range_rate_uncertainty_km_s = km_s }

module _ {F O : Type 0} where
  -- `EarthOrientation::default()` is the argument.
  abbrev pub geometric : O → (latitude_deg longitude_deg altitude_m : F) → StationModel F O
  geometric no_orientation latitude_deg longitude_deg altitude_m = record {
    latitude_deg = latitude_deg;
    longitude_deg = longitude_deg;
    altitude_m = altitude_m;
    earth_orientation = no_orientation;
    refraction = none;
  }

  abbrev pub observer : StationModel F O → ObserverLocation F
  observer station = record {
    latitude = station.latitude_deg;
    longitude = station.longitude_deg;
    elevation = station.altitude_m;
  }

abbrev pub along_track_error_km : {F : Type 0} → Float F → TleErrorModel F → F → F
along_track_error_km fl model age_days =
    fl.add model.km_at_epoch (fl.mul model.growth_km_per_day (fl.abs age_days))

-- `(x*x + y*y + z*z).sqrt()` and `x*u + y*v + z*w`.
abbrev pub norm : {F : Type 0} → Float F → Vec3 F → F
norm fl (x, y, z) = fl.sqrt (fl.add (fl.add (fl.mul x x) (fl.mul y y)) (fl.mul z z))

abbrev pub dot : {F : Type 0} → Float F → Vec3 F → Vec3 F → F
dot fl (x, y, z) (u, v, w) = fl.add (fl.add (fl.mul x u) (fl.mul y v)) (fl.mul z w)

abbrev pub unit : {F : Type 0} → Float F → Vec3 F → Vec3 F
unit fl (x, y, z) =
    (fl.div x (norm fl (x, y, z)), fl.div y (norm fl (x, y, z)), fl.div z (norm fl (x, y, z)))

abbrev pub is_proper_norm : {F : Type 0} → Float F → F → Bool
is_proper_norm fl n = fl.is_finite n && fl.lt (fl.lit 1 0) n

abbrev pub result_ok : {X A : Type 0} → Result X A → Option A
result_ok (ok a) = some a
result_ok (err _) = none

module _ {T F P O X : Type 0} (ep : Ephemerust T F P O X) (fl : Float F) where
  abbrev pub apparent_elevation_deg : StationModel F O → F → F
  apparent_elevation_deg station deg = elim station.refraction [
    | some (p, t) ↦ fl.add deg (ep.refraction_deg_with_conditions deg p t)
    | none ↦ deg
  ]

  -- `StationModel::tracking_state`.
  abbrev pub station_tracking_state : StationModel F O → LookAngles F → TrackingState F
  station_tracking_state station la =
      let s =
        new_tracking_state fl la.azimuth_deg la.elevation_deg la.range_km la.range_rate_km_s in
      elim station.refraction [
        | some _ ↦ with_apparent_elevation (apparent_elevation_deg station la.elevation_deg) s
        | none ↦ s
      ]

  -- The model of the illumination, from the position and the Sun.
  abbrev pub illumination : Vec3 F → Vec3 F → F
  illumination r sun =
      let cos_factor =
        fl.clamp (fl.neg (dot fl (unit fl r) (unit fl sun))) (fl.lit 0 0) (fl.lit 1 0) in
      elim (ep.shadow_state_from_vectors r sun) [
        | sunlit ↦ cos_factor
        | penumbra ↦ fl.mul (fl.lit 5 1) cos_factor
        | umbra ↦ fl.lit 0 0
      ]

  unfoldable pub nadir_sun_illumination_cos_teme : Vec3 F → T → Option F
  nadir_sun_illumination_cos_teme r time =
      if not (is_proper_norm fl (norm fl r)) then none else elim (ep.sun_vector_km time) [
        | err _ ↦ none
        | ok sun ↦ if not (is_proper_norm fl (norm fl sun)) then none else some (illumination r sun)
      ]

  abbrev pub nadir_sun_illumination_cos_from : P → T → Option F
  nadir_sun_illumination_cos_from prop time = elim (ep.propagate prop time) [
    | err _ ↦ none
    | ok state ↦ nadir_sun_illumination_cos_teme state.position_km time
  ]

  abbrev pub look_angles : EphemerustPropagator T F P O → T → Result X (LookAngles F)
  look_angles b time =
      ep.look_angles_with_eop b.propagator time (observer b.station) b.station.earth_orientation

  unfoldable pub range_rate_uncertainty_km_s :
      Chrono T → EphemerustPropagator T F P O → T → TleErrorModel F → Result X F
  range_rate_uncertainty_km_s ch b time model = do
    plus ← look_angles b (ep.plus_seconds time (pos 1))
    minus ← look_angles b (ep.plus_seconds time (negsuc 0))
    let range_accel = fl.div (fl.sub plus.range_rate_km_s minus.range_rate_km_s) (fl.lit 2 0)
    state ← ep.propagate b.propagator time
    let speed = norm fl state.velocity_km_s
    let age_days = fl.div (fl.of_i64 (ch.milliseconds_between time b.tle_epoch)) (fl.lit 86400000 0)
    let ds_km = along_track_error_km fl model age_days
    ok (fl.div (fl.mul (fl.abs range_accel) ds_km) (fl.max speed (fl.lit 1 3)))

  -- `.filter(|x| x.is_finite()).unwrap_or(f64::NAN)`.
  abbrev pub finite_or_nan : Option F → F
  finite_or_nan none = fl.nan
  finite_or_nan (some x) = if fl.is_finite x then x else fl.nan

  -- `OrbitalPropagator::tracking_state` of the SGP4 backend.
  unfoldable pub propagator_tracking_state :
      Chrono T → EphemerustPropagator T F P O → T → Result X (TrackingState F)
  propagator_tracking_state ch b time = look_angles b time >>= λ la.
      let lit_state =
        with_sun_illumination (finite_or_nan (nadir_sun_illumination_cos_from b.propagator time))
          (station_tracking_state b.station la) in
      elim b.tle_error [
        | none ↦ ok lit_state
        | some model ↦ range_rate_uncertainty_km_s ch b time model >>= λ u.
            ok (with_range_rate_uncertainty u lit_state)
      ]

-- `last` is the content of the mutex.
pub record TrackingProvider (T F : Type 0) : Type 0 where
  pub min_interval_ms : ℤ
  pub last : Option (T × TrackingState F)

-- `min_interval_ms as i64`.
abbrev pub u64_as_i64 : ℕ → ℤ
u64_as_i64 n = if ltb n (2 ^ 63) then pos n else negsuc (2 ^ 64 - n - 1)

abbrev pub new_provider : {T F : Type 0} → ℕ → TrackingProvider T F
new_provider min_interval_ms = record { min_interval_ms = u64_as_i64 min_interval_ms; last = none }

-- The propagator is `dyn OrbitalPropagator`: any function of the instant.
module _ {T : Type 0} (ch : Chrono T) where
  -- `(time - *cached_at).num_milliseconds().abs() < self.min_interval_ms`.
  abbrev pub is_fresh : ℤ → T → T → Bool
  is_fresh min_interval_ms time cached_at =
      not (le_int min_interval_ms (pos (distance (ch.milliseconds_between time cached_at) (pos 0))))

module _ {T F X : Type 0} where
  -- What follows the propagation: a state is cached.
  abbrev pub store :
      T
      → TrackingProvider T F
      → Result X (TrackingState F)
      → TrackingProvider T F × Result X (TrackingState F)
  store time p (ok state) = (record p { last = some (time, state) }, ok state)
  store time p (err e) = (p, err e)

module _ {T F X : Type 0} (ch : Chrono T) (propagate : T → Result X (TrackingState F)) where
  -- The request, given what is cached.
  abbrev pub request :
      T
      → TrackingProvider T F
      → Option (T × TrackingState F)
      → TrackingProvider T F × Result X (TrackingState F)
  request time p none = store time p (propagate time)
  request time p (some (cached_at, state)) =
      if is_fresh ch p.min_interval_ms time cached_at
      then (p, ok state)
      else store time p (propagate time)

  -- `TrackingProvider::tracking_state`.
  unfoldable pub tracking_state :
      T → TrackingProvider T F → TrackingProvider T F × Result X (TrackingState F)
  tracking_state time p = request time p p.last
