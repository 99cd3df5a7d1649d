-- ===== src/Oem/Tests.antt =====
-- Runs of the model of crates/gateway/src/oem.rs over a small message, and its properties there.
-- Instants are natural numbers: a day and a hundredth of it.
use chronus_gateway.Prelude.{ℕ, ◌+◌, ◌*◌, ◌^◌, ◌≡◌, refl, none, [], ◌∷◌, leb, ok, err, arith, ◌⊎◌}
use chronus_gateway.Integers.{ℤ, pos, negsuc}
use chronus_gateway.Validate.Tests.{naturals}
use chronus_gateway.Propagator.{Vec3}
use chronus_gateway.Text.{Text, codes, parse_unsigned}
use chronus_gateway.Oem.{InertialFrame, itrf, utc, syntax, out_of_coverage, OemSegment, OemCalls}
use chronus_gateway.Oem.Parse.Epoch.{parse_epoch}
use chronus_gateway.Oem.Parse.Segment.{kvn, from_meta, push_data, finish}
use chronus_gateway.Oem.Parse.Lines.{OemEphemeris, read_line, read_lines, end_of_text, parse}
use chronus_gateway.Oem.Parse.Sound.{IsOrder, EphemerisOk}
use chronus_gateway.Oem.Parse.Read.{parse-EphemerisOk}
use chronus_gateway.Oem.Interpolate.{interpolate, state_itrf}
use chronus_gateway.Oem.Interpolate.Coverage.{Interpolated, Refused, state_itrf-parse}

abbrev plus : ℕ → ℤ → ℕ
plus t (pos n) = t + n
plus t (negsuc n) = t

abbrev calls : OemCalls ℕ ℕ ℕ ℕ
calls = record {
  from_yo = λ y d. none;
  parse_date = parse_unsigned (2 ^ 16);
  parse_time = parse_unsigned 100;
  and_utc = λ d c. d * 100 + c;
  plus_nanoseconds = plus;
  nanoseconds_between = λ a b. none;
  milliseconds_between = λ a b. pos 0;
  nanoseconds = λ n. pos n;
  tai_minus_utc_s = λ t. 37;
  le_time = leb;
  parse_f64 = parse_unsigned (2 ^ 64);
}

abbrev message : Text
message =
    codes
      "CCSDS_OEM_VERS = 2.0\nMETA_START\nOBJECT_NAME = SAT\nCENTER_NAME = Earth\nREF_FRAME = ITRF2014\nTIME_SYSTEM = UTC\nSTART_TIME = 20T05\nSTOP_TIME = 20T50\nMETA_STOP\nCOMMENT states\n20T00 1 2 3 4 5 6\n20T10 2 3 4 5 6 7\n20T20 3 4 5 6 7 8\n"

abbrev segment : OemSegment ℕ ℕ
segment = record {
  object_name = codes "SAT";
  object_id = codes "UNKNOWN";
  frame = itrf;
  time_system = utc;
  degree = 7;
  start = 2005;
  stop = 2020;
  epochs = 2000 ∷ 2010 ∷ 2020 ∷ [];
  states = (1, 2, 3, 4, 5, 6) ∷ (2, 3, 4, 5, 6, 7) ∷ (3, 4, 5, 6, 7, 8) ∷ [];
}

abbrev ephemeris : OemEphemeris ℕ ℕ
ephemeris = record { segments = segment ∷ [] }

message-parsed : parse naturals calls message ≡ ok ephemeris
unfolding parse read_line read_lines end_of_text kvn from_meta push_data finish parse_epoch
message-parsed = refl

leb-IsOrder : IsOrder leb
leb-IsOrder = record {
  reflexive = λ t. ground arith;
  total = λ t u h. ground (arith, h);
  transitive = λ t u v a b. ground (arith, a, b);
}

parse-EphemerisOk_example : EphemerisOk leb ephemeris
parse-EphemerisOk_example = parse-EphemerisOk naturals calls leb-IsOrder message message-parsed

abbrev rotate : InertialFrame → ℕ → Vec3 ℕ → Vec3 ℕ → ℕ → Vec3 ℕ × Vec3 ℕ
rotate f t r v eop = (r, v)

state_itrf-parse_example :
    Interpolated naturals calls rotate ephemeris 2012 0
    ⊎ Refused naturals calls rotate ephemeris 2012 0
state_itrf-parse_example =
    state_itrf-parse naturals calls rotate ephemeris 2012 0 leb-IsOrder message message-parsed

-- Before the window of use and behind it the ephemeris refuses.
refused_before :
    state_itrf naturals calls rotate ephemeris 2004 0 ≡ err (out_of_coverage 2004 2005 2020)
unfolding state_itrf interpolate
refused_before = refl

-- Epochs that do not increase are refused with the number of their line.
epoch_repeated :
    parse naturals calls (
      codes
        "CCSDS_OEM_VERS = 2.0\nMETA_START\nCENTER_NAME = EARTH\nREF_FRAME = TEME\nTIME_SYSTEM = UTC\nSTART_TIME = 20T05\nSTOP_TIME = 20T50\nMETA_STOP\n20T10 1 2 3 4 5 6\n20T10 2 3 4 5 6 7\n")
    ≡ err (syntax 10)
unfolding parse read_line read_lines end_of_text kvn from_meta push_data finish parse_epoch
epoch_repeated = refl
