-- ===== src/Oem.antt =====
-- crates/gateway/src/oem.rs: Orbit Ephemeris Messages. The reasons inside the errors are left out.
-- An instant is of a type `T`, a floating-point number of a type `F`; what the code calls of
-- `chrono`, of `ephemerust` and of `str::parse::<f64>` is the record `OemCalls`.
pub mod Parse
pub mod Interpolate
pub mod Tests
use chronus_gateway.Prelude.{
  ℕ, ◌+◌, Bool, true, false, Option, none, some, List, [], ◌∷◌, ◌++◌, Result, ok, err, ok_or, ◌>>=◌,
  reject_if, ltb, leb, ◌==◌, ◌&&◌, ◌||◌, not, if◌then◌else◌, length, and_then, is_some_and, ◌>>◌,
}
use chronus_gateway.Integers.{ℤ}
use chronus_gateway.Text.{Text}

-- The crate's `InertialFrame`, as far as the gateway names it.
pub data InertialFrame : Type 0 where
  gcrf : InertialFrame
  eme2000 : InertialFrame
  teme : InertialFrame

pub data OemFrame : Type 0 where
  inertial : InertialFrame → OemFrame
  itrf : OemFrame

-- `Tt` is `terrestrial` here.
pub data OemTimeSystem : Type 0 where
  utc : OemTimeSystem
  tai : OemTimeSystem
  terrestrial : OemTimeSystem
  gps : OemTimeSystem

pub data OemError (T : Type 0) : Type 0 where
  not_oem : OemError T
  syntax : (line : ℕ) → OemError T
  missing_keyword : (segment : ℕ) (keyword : Text) → OemError T
  unsupported_center : (segment : ℕ) (center : Text) → OemError T
  unsupported_frame : (segment : ℕ) (frame : Text) → OemError T
  unsupported_time_system : (segment : ℕ) (system : Text) → OemError T
  bad_segment : (segment : ℕ) → OemError T
  empty : OemError T
  out_of_coverage : (time start stop : T) → OemError T

abbrev pub Vec6 : Type 0 → Type 0
Vec6 F = F × F × F × F × F × F

pub record OemSegment (T F : Type 0) : Type 0 where
  pub object_name : Text
  pub object_id : Text
  pub frame : OemFrame
  pub time_system : OemTimeSystem
  pub degree : ℕ
  pub start : T
  pub stop : T
  pub epochs : List T
  pub states : List (Vec6 F)

pub record SegmentBuilder (T F : Type 0) : Type 0 where
  pub object_name : Text
  pub object_id : Text
  pub frame : OemFrame
  pub time_system : OemTimeSystem
  pub degree : ℕ
  pub start : T
  pub stop : T
  pub useable_start : Option T
  pub useable_stop : Option T
  pub epochs : List T
  pub states : List (Vec6 F)

-- `D` is a date of the calendar and `C` a time of the day. `nanoseconds_between` is
-- `num_nanoseconds` of a difference, and `nanoseconds` is `round() as i64`.
pub record OemCalls (T F D C : Type 0) : Type 0 where
  pub from_yo : ℤ → ℕ → Option D
  pub parse_date : Text → Option D
  pub parse_time : Text → Option C
  pub and_utc : D → C → T
  pub plus_nanoseconds : T → ℤ → T
  pub nanoseconds_between : T → T → Option ℤ
  pub milliseconds_between : T → T → ℤ
  pub nanoseconds : F → ℤ
  pub tai_minus_utc_s : T → F
  pub le_time : T → T → Bool
  pub parse_f64 : Text → Option F

-- `Ord::max` and `Ord::min`.
module _ {T : Type 0} (le_time : T → T → Bool) where
  abbrev pub later : T → T → T
  later a b = if le_time a b then b else a

  abbrev pub earlier : T → T → T
  earlier a b = if le_time a b then a else b
