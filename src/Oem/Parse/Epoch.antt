-- ===== src/Oem/Parse/Epoch.antt =====
-- `parse_epoch` of crates/gateway/src/oem.rs.
use chronus_gateway.Prelude.{◌^◌, Option, some, ◌==◌, if◌then◌else◌, and_then}
use chronus_gateway.Integers.{ℤ, pos, ◌-ℤ◌}
use chronus_gateway.Floats.{Float}
use chronus_gateway.Text.{Text, byte_len, trim_end_char, split_once, parse_unsigned, parse_signed}
use chronus_gateway.Oem.{OemTimeSystem, utc, tai, terrestrial, gps, OemCalls}

module _ {T F D C : Type 0} (fl : Float F) (calls : OemCalls T F D C) where
  abbrev pub parse_day : Text → Option D
  parse_day date =
      if byte_len date == 8
      then and_then (split_once b'-' date) (λ yd.
        and_then (parse_signed (2 ^ 31) yd.0)
          (λ y. and_then (parse_unsigned (2 ^ 32) yd.1) (λ doy. calls.from_yo y doy)))
      else calls.parse_date date

  abbrev pub offset : F → ℤ
  offset s = calls.nanoseconds (fl.mul s (fl.lit 1000000000 0))

  abbrev pub minus : T → F → T
  minus t s = calls.plus_nanoseconds t (pos 0 -ℤ offset s)

  -- TAI to UTC, with the difference of the scales at the approximate instant.
  abbrev pub utc_of_tai : T → T
  utc_of_tai t = minus t (calls.tai_minus_utc_s (minus t (calls.tai_minus_utc_s t)))

  abbrev pub to_utc : OemTimeSystem → T → T
  to_utc utc naive = naive
  to_utc tai naive = utc_of_tai naive
  to_utc terrestrial naive = utc_of_tai (minus naive (fl.lit 32184 3))
  to_utc gps naive = utc_of_tai (calls.plus_nanoseconds naive (offset (fl.lit 19 0)))

  unfoldable pub parse_epoch : Text → OemTimeSystem → Option T
  parse_epoch text system = and_then (split_once b'T' (trim_end_char b'Z' text)) (λ parts.
      and_then (parse_day parts.0) (λ date.
        and_then (calls.parse_time parts.1)
          (λ time. some (to_utc system (calls.and_utc date time)))))
