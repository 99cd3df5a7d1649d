-- ===== src/Oem/Interpolate.antt =====
-- `OemSegment::interpolate`, `OemEphemeris::coverage` and `state_itrf`, and `OemPropagator` of
-- crates/gateway/src/oem.rs. `partition_point` is the number of leading elements that pass: the
-- epochs increase.
pub mod Window
pub mod Coverage
use chronus_gateway.Prelude.{
  ℕ, ◌+◌, ◌-◌, ◌/◌, min, Bool, true, false, not, ◌&&◌, Option, none, some, List, [], ◌∷◌, ◌++◌,
  ◌==◌, if◌then◌else◌, length, get_or, Result, ok, err, ◌>>=◌, zero, suc,
}
use chronus_gateway.Integers.{ℤ}
use chronus_gateway.Floats.{Float}
use chronus_gateway.Validate.{TrackingState}
use chronus_gateway.Propagator.{
  Vec3, LookAngles, ObserverLocation, StationModel, Ephemerust, observer, station_tracking_state,
  with_sun_illumination, finite_or_nan, nadir_sun_illumination_cos_teme,
}
use chronus_gateway.Oem.{
  InertialFrame, teme, OemFrame, inertial, itrf, OemError, out_of_coverage, Vec6, OemSegment,
  OemCalls, later, earlier,
}
use chronus_gateway.Oem.Parse.Lines.{OemEphemeris}

abbrev pub partition_point : {A : Type 0} → (A → Bool) → List A → ℕ
partition_point test [] = 0
partition_point test (x ∷ xs) = let rest = partition_point test xs in if test x then suc rest else 0

-- The window of `k` states of `n` around the first one after the time.
abbrev pub window_first : (after k n : ℕ) → ℕ
window_first after k n = min (after - k / 2) (n - k)

module _ {T F D C : Type 0} (fl : Float F) (calls : OemCalls T F D C) where
  -- `secs` of a difference.
  abbrev pub secs_between : T → T → F
  secs_between a b = elim (calls.nanoseconds_between a b) [
    | some n ↦ fl.mul (fl.of_i64 n) (fl.lit 1 9)
    | none ↦ fl.div (fl.of_i64 (calls.milliseconds_between a b)) (fl.lit 1000 0)
  ]

  abbrev pub after_time : OemSegment T F → T → ℕ
  after_time s time = partition_point (λ e. calls.le_time e time) s.epochs

  abbrev pub window_size : OemSegment T F → ℕ
  window_size s = min (s.degree + 1) (length s.states)

  abbrev pub first_of : OemSegment T F → T → ℕ
  first_of s time = window_first (after_time s time) (window_size s) (length s.states)

  abbrev pub origin : Vec6 F
  origin = (fl.lit 0 0, fl.lit 0 0, fl.lit 0 0, fl.lit 0 0, fl.lit 0 0, fl.lit 0 0)

  module _ (x : ℕ → F) (tq : F) where
    -- The product over the `count` nodes from `m` on, without node `j`.
    abbrev pub weight : (count m j : ℕ) → F → F
    weight zero m j w = w
    weight (suc count) m j w =
        weight count (m + 1) j
          (if m == j then w else fl.mul w (fl.div (fl.sub tq (x m)) (fl.sub (x j) (x m))))

    abbrev pub add_weighted : F → Vec6 F → Vec6 F → Vec6 F
    add_weighted w (a, b, c, d, e, f) (a', b', c', d', e', f') = (
      fl.add a (fl.mul w a'),
      fl.add b (fl.mul w b'),
      fl.add c (fl.mul w c'),
      fl.add d (fl.mul w d'),
      fl.add e (fl.mul w e'),
      fl.add f (fl.mul w f'),
    )

    -- The sum over the `count` states from `j` on of the window of `k` from `first`.
    abbrev pub weighted : (states : List (Vec6 F)) (first k count j : ℕ) → Vec6 F → Vec6 F
    weighted states first k zero j out = out
    weighted states first k (suc count) j out =
        weighted states first k count (j + 1)
          (add_weighted (weight k first j (fl.lit 1 0)) out (get_or states j origin))

  -- Every index is below the number of states.
  unfoldable pub interpolate : OemSegment T F → T → Vec3 F × Vec3 F
  interpolate s time =
      let k = window_size s in
      let first = first_of s time in
      let t0 = get_or s.epochs first time in
      let x : ℕ → F = λ i. secs_between (get_or s.epochs i t0) t0 in
      let (a, b, c, d, e, f) = weighted x (secs_between time t0) s.states first k k first origin in
      ((a, b, c), (d, e, f))

  -- The least start and the greatest stop; a parsed ephemeris is not empty.
  abbrev pub span_of : T → T → List (OemSegment T F) → T × T
  span_of start stop [] = (start, stop)
  span_of start stop (s ∷ segments) =
      span_of (earlier calls.le_time start s.start) (later calls.le_time stop s.stop) segments

  abbrev pub coverage : T → List (OemSegment T F) → T × T
  coverage time [] = (time, time)
  coverage time (s ∷ segments) = span_of s.start s.stop segments

  abbrev pub covers : T → OemSegment T F → Bool
  covers time s = calls.le_time s.start time && calls.le_time time s.stop

  -- `iter().rev().find(…)`.
  abbrev pub last_covering : T → List (OemSegment T F) → Option (OemSegment T F)
  last_covering time [] = none
  last_covering time (s ∷ segments) = elim (last_covering time segments) [
    | some later_one ↦ some later_one
    | none ↦ if covers time s then some s else none
  ]

  module _ {O : Type 0}
      (inertial_to_itrf : InertialFrame → T → Vec3 F → Vec3 F → O → Vec3 F × Vec3 F) where
    abbrev pub to_itrf : OemFrame → T → Vec3 F × Vec3 F → O → Vec3 F × Vec3 F
    to_itrf itrf time (r, v) eop = (r, v)
    to_itrf (inertial f) time (r, v) eop = inertial_to_itrf f time r v eop

    abbrev pub state_of_segment : OemSegment T F → T → O → Vec3 F × Vec3 F
    state_of_segment s time eop = to_itrf s.frame time (interpolate s time) eop

    abbrev pub state_or_refuse :
        OemEphemeris T F → T → O → Option (OemSegment T F) → Result (OemError T) (Vec3 F × Vec3 F)
    state_or_refuse eph time eop (some s) = ok (state_of_segment s time eop)
    state_or_refuse eph time eop none =
        let (start, stop) = coverage time eph.segments in err (out_of_coverage time start stop)

    unfoldable pub state_itrf : OemEphemeris T F → T → O → Result (OemError T) (Vec3 F × Vec3 F)
    state_itrf eph time eop = state_or_refuse eph time eop (last_covering time eph.segments)

-- `topocentric_look_angles` and `itrf_to_inertial` to TEME are the crate's; `OemRead` and the other
-- errors of the configuration do not arise here.
pub data TrackingError (T X : Type 0) : Type 0 where
  oem : OemError T → TrackingError T X
  astro : X → TrackingError T X

pub record OemPropagator (T F O : Type 0) : Type 0 where
  pub ephemeris : OemEphemeris T F
  pub station : StationModel F O

-- The rotations of the crate and its look angles.
pub record Rotations (T F O X : Type 0) : Type 0 where
  pub inertial_to_itrf : InertialFrame → T → Vec3 F → Vec3 F → O → Vec3 F × Vec3 F
  pub itrf_to_inertial : InertialFrame → T → Vec3 F → Vec3 F → O → Vec3 F × Vec3 F
  pub topocentric_look_angles : Vec3 F → Vec3 F → ObserverLocation F → Result X (LookAngles F)

module _ {T F D C P O X : Type 0} (fl : Float F) (calls : OemCalls T F D C)
    (ep : Ephemerust T F P O X) (rot : Rotations T F O X) where
  abbrev pub itrf_to_teme_position : Vec3 F → T → O → Vec3 F
  itrf_to_teme_position r time eop =
      (rot.itrf_to_inertial teme time r (fl.lit 0 0, fl.lit 0 0, fl.lit 0 0) eop).0

  abbrev pub map_error : {A E E' : Type 0} → (E → E') → Result E A → Result E' A
  map_error f (ok a) = ok a
  map_error f (err e) = err (f e)

  -- `OrbitalPropagator::tracking_state` of the ephemeris backend.
  unfoldable pub oem_tracking_state :
      OemPropagator T F O → T → Result (TrackingError T X) (TrackingState F)
  oem_tracking_state p time =
      let eop = p.station.earth_orientation in
      map_error oem (state_itrf fl calls rot.inertial_to_itrf p.ephemeris time eop) >>= λ rv.
      map_error astro (rot.topocentric_look_angles rv.0 rv.1 (observer p.station)) >>= λ la. ok (
        with_sun_illumination
          (finite_or_nan ep fl
            (nadir_sun_illumination_cos_teme ep fl (itrf_to_teme_position rv.0 time eop) time))
          (station_tracking_state ep fl p.station la))
