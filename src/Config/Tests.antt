-- ===== src/Config/Tests.antt =====
-- The checks on the default station, with integers for `f64`, and on a station that receives TM
-- frames.
use chronus_gateway.Prelude.{
  ℕ, ◌<◌, ◌≡◌, ◌↔◌, refl, not, true, false, some, List, [], ◌∷◌, length, Result, ok, err, arith,
}
use chronus_gateway.Integers.{ℤ, pos, above_zero, below_zero, difference, le_int}
use chronus_gateway.Floats.{Float}
use chronus_gateway.Frames.Deframer.{new}
use chronus_gateway.Frames.Snapshot.{tm_frames}
use chronus_gateway.Frames.Stream.Bound.{Operation, pushes, resets, run}
use chronus_gateway.Config.{StationConfig, default_station}
use chronus_gateway.Config.Errors.{invalid_setting, framing_frame_length}
use chronus_gateway.Config.Check.{
  validate, validate_site, validate_doppler_elevation, validate_tracking, validate_link_pointing,
  validate_hil, validate_rf_time, validate_framing_history,
}
use chronus_gateway.Config.Valid.{FramingHistoryValid, validate_framing_history-FramingHistoryValid}
use chronus_gateway.Config.Bounded.{validate-run}

abbrev minus : ℤ → ℤ
minus a = difference (below_zero a) (above_zero a)

abbrev integers : Float ℤ
integers = record {
  lit = λ n e. pos n;
  of_f32 = λ n. pos n;
  of_u64 = λ n. pos n;
  of_i64 = λ n. n;
  pi = pos 3;
  nan = pos 0;
  add = λ a b. a;
  sub = λ a b. a;
  mul = λ a b. a;
  div = λ a b. a;
  max = λ a b. a;
  clamp = λ x lo hi. x;
  neg = minus;
  abs = λ a. a;
  log10 = λ a. a;
  sqrt = λ a. a;
  sin = λ a. a;
  cos = λ a. a;
  acos = λ a. a;
  to_degrees = λ a. a;
  to_radians = λ a. a;
  lt = λ a b. not (le_int b a);
  le = le_int;
  is_finite = λ a. true;
}

-- A text is its length.
abbrev station : StationConfig ℤ ℕ ℕ
station = default_station integers 140

abbrev receiving : StationConfig ℤ ℕ ℕ
receiving = record station {
  framing_mode = tm_frames;
  framing = record station.framing { asm = true; frame_length = some 64 };
}

abbrev no_length : StationConfig ℤ ℕ ℕ
no_length = record receiving { framing = record station.framing { asm = true } }

abbrev new_orientation : (ut1 x y : ℤ) → Result (Unit {0}) (Unit {0})
new_orientation ut1 x y = ok tt

default_is_valid : validate integers (λ text. false) new_orientation station ≡ ok tt
unfolding validate validate_site validate_doppler_elevation validate_tracking validate_link_pointing
    validate_hil validate_rf_time validate_framing_history
default_is_valid = refl

receiving_is_valid : validate integers (λ text. false) new_orientation receiving ≡ ok tt
unfolding validate validate_site validate_doppler_elevation validate_tracking validate_link_pointing
    validate_hil validate_rf_time validate_framing_history
receiving_is_valid = refl

marker_without_length :
    validate integers (λ text. false) new_orientation no_length
    ≡ err (invalid_setting framing_frame_length)
unfolding validate validate_site validate_doppler_elevation validate_tracking validate_link_pointing
    validate_hil validate_rf_time validate_framing_history
marker_without_length = refl

abbrev operations : List Operation
operations = pushes (0x1A ∷ 0xCF ∷ 0xFC ∷ []) ∷ resets ∷ pushes (0x1A ∷ []) ∷ []

validate_framing_history-FramingHistoryValid_example :
    (validate_framing_history {F = ℤ} {X = Unit {0}} receiving.framing_mode receiving.framing
        receiving.history
      ≡ ok tt)
    ↔ FramingHistoryValid receiving.framing_mode receiving.framing receiving.history
validate_framing_history-FramingHistoryValid_example =
    validate_framing_history-FramingHistoryValid receiving.framing_mode receiving.framing
      receiving.history

validate-run_example : length (run operations (new receiving.framing)).stream < 2052
validate-run_example =
    validate-run integers (λ text. false) new_orientation receiving operations receiving_is_valid
      refl refl ((omega arith, (omega arith, (omega arith, tt))), (tt, ((omega arith, tt), tt)))
