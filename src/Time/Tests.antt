-- ===== src/Time/Tests.antt =====
-- Runs of the time codes. An instant is a count of seconds since 1970 and of nanoseconds, and the
-- skew is a natural number of seconds.
use chronus_gateway.Prelude.{
  ℕ, ◌+◌, ◌*◌, ◌/◌, ◌%◌, ◌≡◌, refl, true, Option, none, some, if◌then◌else◌, ltb, [], ◌∷◌, ◌++◌,
  arith,
}
use chronus_gateway.Words.{Bytes}
use chronus_gateway.Integers.{ℤ, pos, negsuc, ◌+ℤ◌, ◌-ℤ◌}
use chronus_gateway.Ccsds.{TelemetryFrame, user_data}
use chronus_gateway.Time.{
  Chrono, TimeConfig, cds, cuc, decode_time, encode_cds, encode_cuc, resolve_frame_time,
}
use chronus_gateway.Time.Codes.{WithinResolution, decode_time-encode_cuc}
use chronus_gateway.Time.Resolve.{
  Resolved, resolve_frame_time-Resolved, resolve_frame_time_again, resolve_frame_time-encode_cds,
}
use chronus_gateway.Validate.Tests.{naturals}

pub record Instant : Type 0 where
  pub secs : ℕ
  pub nanos : ℕ

abbrev millis : Instant → ℕ
millis t = t.secs * 1000 + t.nanos / 1000000

abbrev from_millis : ℤ → Option Instant
from_millis (pos m) = some (record { secs = m / 1000; nanos = m % 1000 * 1000000 })
from_millis (negsuc m) = none

abbrev from_secs : ℤ → ℕ → Option Instant
from_secs (pos s) n = if ltb n 2000000000 then some (record { secs = s; nanos = n }) else none
from_secs (negsuc s) n = none

abbrev pub chrono : Chrono Instant
chrono = record {
  from_timestamp_millis = from_millis;
  from_timestamp = from_secs;
  timestamp_millis = λ t. pos (millis t);
  timestamp = λ t. pos t.secs;
  timestamp_subsec_nanos = λ t. t.nanos;
  milliseconds_between = λ a b. pos (millis a) -ℤ pos (millis b);
}

-- 2026-10-11T12:30:15.25 and a second later.
abbrev pub produced : Instant
produced = record { secs = 1791721815; nanos = 250000000 }

abbrev pub received : Instant
received = record { secs = 1791721816; nanos = 250000000 }

abbrev pub cds_bytes : Bytes
cds_bytes = 98 ∷ 32 ∷ 2 ∷ 174 ∷ 224 ∷ 210 ∷ []

abbrev cuc_bytes : Bytes
cuc_bytes = 129 ∷ 93 ∷ 223 ∷ 252 ∷ 64 ∷ 0 ∷ []

cds_run : encode_cds chrono produced ≡ some cds_bytes
unfolding encode_cds ◌-ℤ◌
cds_run = refl

cuc_run : encode_cuc chrono produced (pos 37) ≡ some cuc_bytes
unfolding encode_cuc ◌-ℤ◌ ◌+ℤ◌
cuc_run = refl

decode_time-encode_cuc_example :
    WithinResolution Instant chrono produced (decode_time chrono cuc (cuc_bytes ++ 7 ∷ []) (pos 37))
decode_time-encode_cuc_example =
    decode_time-encode_cuc chrono produced cuc_bytes (7 ∷ []) (pos 37) (omega arith) cuc_run

abbrev pub time_config : TimeConfig ℕ
time_config = record { format = cds; max_skew_s = 5; cuc_tai_minus_utc_s = pos 37 }

abbrev strict : TimeConfig ℕ
strict = record time_config { max_skew_s = 0 }

abbrev timed : TelemetryFrame Instant (Unit {0})
timed = record {
  raw = (0 ∷ 0 ∷ 0 ∷ 0 ∷ 0 ∷ 0 ∷ []) ++ cds_bytes ++ 7 ∷ [];
  payload_len = 7;
  apid = 5;
  seq_count = 1;
  has_secondary_header = true;
  received_at = received;
  source = tt;
  physics_flags = 0;
  physics_flags_v2 = 3;
  onboard_time = none;
  time_field_len = 0;
}

resolve_frame_time-Resolved_example :
    let resolved = resolve_frame_time chrono naturals time_config timed in
    Resolved timed resolved.0 resolved.1
resolve_frame_time-Resolved_example = resolve_frame_time-Resolved chrono naturals time_config timed

resolve_frame_time_again_example :
    resolve_frame_time chrono naturals time_config
      (resolve_frame_time chrono naturals strict timed).0
    ≡ resolve_frame_time chrono naturals time_config timed
resolve_frame_time_again_example = resolve_frame_time_again chrono naturals strict time_config timed

resolve_frame_time-encode_cds_example :
    let resolved = resolve_frame_time chrono naturals time_config timed in
    (resolved.1 ≡ produced)
    × (resolved.0.onboard_time ≡ some produced)
    × (resolved.0.physics_flags_v2 ≡ 0)
    × (user_data resolved.0 ≡ 7 ∷ [])
unfolding ◌-ℤ◌
resolve_frame_time-encode_cds_example =
    resolve_frame_time-encode_cds chrono naturals time_config timed produced produced cds_bytes
      (7 ∷ []) refl refl refl cds_run refl refl refl
