-- ===== src/Validate/Tests.antt =====
-- Runs of the co-validation with natural numbers for `f64`, where `a - b` is the distance.
use chronus_gateway.Prelude.{
  ℕ, ◌+◌, ◌-◌, ◌*◌, ◌/◌, ◌≡◌, refl, true, none, some, ltb, leb, [], ◌∷◌, max, min,
}
use chronus_gateway.Integers.{pos, distance}
use chronus_gateway.Floats.{Float}
use chronus_gateway.Rf.{RfMetadata}
use chronus_gateway.Ccsds.{TelemetryFrame}
use chronus_gateway.Validate.{TrackingState, ValidationContext, new_context, new_tracking_state}
use chronus_gateway.Validate.Checks.{
  raise_if, is_below_horizon, is_doppler_anomaly, is_link_budget_anomaly, is_pointing_anomaly,
  apply_physics_validation,
}
use chronus_gateway.Validate.Flags.{Flagged, apply_physics_validation-Flagged}

abbrev pub naturals : Float ℕ
naturals = record {
  lit = λ n e. n;
  of_f32 = λ n. n;
  of_u64 = λ n. n;
  of_i64 = λ n. distance n (pos 0);
  pi = 3;
  nan = 0;
  add = λ a b. a + b;
  sub = λ a b. a - b + (b - a);
  mul = λ a b. a * b;
  div = λ a b. a / b;
  max = λ a b. max a b;
  clamp = λ x lo hi. min hi (max lo x);
  neg = λ a. a;
  abs = λ a. a;
  log10 = λ a. a;
  sqrt = λ a. a;
  sin = λ a. a;
  cos = λ a. a;
  acos = λ a. a;
  to_degrees = λ a. a;
  to_radians = λ a. a;
  lt = ltb;
  le = leb;
  is_finite = λ a. true;
}

abbrev pub context : ValidationContext ℕ
context = record (new_context naturals 437500) { minimum_elevation_deg = 10 }

abbrev pub tracked : TrackingState ℕ
tracked = new_tracking_state naturals 120 5 800 0

abbrev pub measured : RfMetadata ℕ
measured = record {
  measured_carrier_hz = some 438000;
  measured_rx_power_dbm = none;
  measured_azimuth_deg = none;
  measured_elevation_deg = none;
}

abbrev received : TelemetryFrame (Unit {0}) (Unit {0})
received = record {
  raw = 0 ∷ 0 ∷ 0 ∷ 0 ∷ 0 ∷ 0 ∷ 9 ∷ [];
  payload_len = 1;
  apid = 5;
  seq_count = 1;
  has_secondary_header = true;
  received_at = tt;
  source = tt;
  physics_flags = 0x7F;
  physics_flags_v2 = 0;
  onboard_time = none;
  time_field_len = 0;
}

both_bits : (apply_physics_validation naturals context received tracked measured).physics_flags ≡ 3
unfolding apply_physics_validation raise_if is_below_horizon is_doppler_anomaly
    is_link_budget_anomaly is_pointing_anomaly
both_bits = refl

apply_physics_validation-Flagged_example :
    Flagged naturals context received tracked measured
      (apply_physics_validation naturals context received tracked measured).physics_flags
apply_physics_validation-Flagged_example =
    apply_physics_validation-Flagged naturals context received tracked measured
