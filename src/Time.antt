-- ===== src/Time.antt =====
-- crates/gateway/src/time.rs: the spacecraft time codes. `chrono` is the record `Chrono`; instants
-- are its values, of a type `T`.
pub mod Codes
pub mod Resolve
pub mod Tests
use chronus_gateway.Prelude.{
  ℕ, ◌+◌, ◌-◌, ◌*◌, ◌/◌, ◌%◌, ◌^◌, Bool, true, false, not, ◌&&◌, ◌||◌, Option, none, some, List, [],
  ◌∷◌, ◌++◌, ltb, leb, if◌then◌else◌, length, take, get_or, and_then, Result, ok, err, ok_or, ◌>>=◌,
}
use mathlib.Core.Option
use chronus_gateway.Integers.{ℤ, pos, negsuc, ◌+ℤ◌, ◌-ℤ◌, checked_i64, to_unsigned, distance}
use chronus_gateway.Floats.{Float}
use chronus_gateway.Words.{Bytes, from_be_u16, from_be_u32, be_hi, be_lo, be_u32}
use chronus_gateway.Ccsds.{TelemetryFrame, payload}

abbrev pub time_field_len : ℕ
time_field_len = 6

-- `CCSDS_EPOCH_UNIX_S`, -378,691,200, and its milliseconds.
abbrev pub ccsds_epoch_unix_s : ℤ
ccsds_epoch_unix_s = negsuc 378691199

abbrev pub ccsds_epoch_unix_ms : ℤ
ccsds_epoch_unix_ms = negsuc 378691199999

abbrev pub ms_per_day : ℕ
ms_per_day = 86400000

abbrev pub flag_v2_time_tag_skew : ℕ
flag_v2_time_tag_skew = 0x01

abbrev pub flag_v2_time_code_invalid : ℕ
flag_v2_time_code_invalid = 0x02

pub data TimeFormat : Type 0 where
  no_time : TimeFormat
  cds : TimeFormat
  cuc : TimeFormat

abbrev pub field_len : TimeFormat → ℕ
field_len no_time = 0
field_len cds = time_field_len
field_len cuc = time_field_len

-- `format == TimeFormat::None`.
abbrev pub is_none_format : TimeFormat → Bool
is_none_format no_time = true
is_none_format cds = false
is_none_format cuc = false

pub data TimeError : Type 0 where
  too_short : (len : ℕ) → TimeError
  out_of_range : TimeError

-- What the code calls of `DateTime<Utc>`; `milliseconds_between` is `(a - b).num_milliseconds()`.
pub record Chrono (T : Type 0) : Type 0 where
  pub from_timestamp_millis : ℤ → Option T
  pub from_timestamp : (secs : ℤ) → (nanos : ℕ) → Option T
  pub timestamp_millis : T → ℤ
  pub timestamp : T → ℤ
  pub timestamp_subsec_nanos : T → ℕ
  pub milliseconds_between : T → T → ℤ

pub record TimeConfig (F : Type 0) : Type 0 where
  pub format : TimeFormat
  pub max_skew_s : F
  pub cuc_tai_minus_utc_s : ℤ

-- Days and milliseconds of the day, where the days are a `u16`.
abbrev pub cds_field : ℕ → Option Bytes
cds_field ms_since_epoch =
    let days = ms_since_epoch / ms_per_day in
    let ms = ms_since_epoch % ms_per_day in
    if ltb days (2 ^ 16) then some (be_hi days ∷ be_lo days ∷ be_u32 ms) else none

module _ {T : Type 0} (ch : Chrono T) where
  -- `.map(Some).ok_or(TimeError::OutOfRange)`
  abbrev pub instant : Option T → Result TimeError (Option T)
  instant none = err out_of_range
  instant (some t) = ok (some t)

  unfoldable pub decode_cds : Bytes → Result TimeError (Option T)
  decode_cds field =
      let days = from_be_u16 (get_or field 0 0) (get_or field 1 0) in
      let ms =
        from_be_u32 (get_or field 2 0) (get_or field 3 0) (get_or field 4 0) (get_or field 5 0) in
      let total_ms = checked_i64 (ccsds_epoch_unix_ms +ℤ pos (days * ms_per_day + ms)) in
      if leb (ms_per_day + 1000) ms
      then err out_of_range
      else instant (and_then total_ms ch.from_timestamp_millis)

  -- The offset is an `i32`, so that no sum leaves the range of `i64`.
  unfoldable pub decode_cuc : Bytes → ℤ → Result TimeError (Option T)
  decode_cuc field cuc_tai_minus_utc_s =
      let coarse =
        from_be_u32 (get_or field 0 0) (get_or field 1 0) (get_or field 2 0) (get_or field 3 0) in
      let fine = from_be_u16 (get_or field 4 0) (get_or field 5 0) in
      let nanos = fine * 1000000000 / 2 ^ 16 % 2 ^ 32 in
      let secs = ccsds_epoch_unix_s +ℤ pos coarse -ℤ cuc_tai_minus_utc_s in
      instant (ch.from_timestamp secs nanos)

  abbrev pub decode_field : TimeFormat → Bytes → ℤ → Result TimeError (Option T)
  decode_field no_time field offset = ok none
  decode_field cds field offset = decode_cds field
  decode_field cuc field offset = decode_cuc field offset

  unfoldable pub decode_time : TimeFormat → Bytes → ℤ → Result TimeError (Option T)
  decode_time format bytes cuc_tai_minus_utc_s =
      if is_none_format format
      then ok none
      else if ltb (length bytes) time_field_len
      then err (too_short (length bytes))
      else decode_field format (take time_field_len bytes) cuc_tai_minus_utc_s

  unfoldable pub encode_cds : T → Option Bytes
  encode_cds t =
      and_then (checked_i64 (ch.timestamp_millis t -ℤ ccsds_epoch_unix_ms))
        (λ since. and_then (to_unsigned (2 ^ 63) since) cds_field)

  -- `as u16` drops what a leap second would add.
  unfoldable pub encode_cuc : T → ℤ → Option Bytes
  encode_cuc t tai_minus_utc_s =
      let fine = ch.timestamp_subsec_nanos t * 2 ^ 16 / 1000000000 % 2 ^ 16 in
      and_then (to_unsigned (2 ^ 32) (ch.timestamp t -ℤ ccsds_epoch_unix_s +ℤ tai_minus_utc_s))
        (λ coarse. some (be_u32 coarse ++ be_hi fine ∷ be_lo fine ∷ []))

  abbrev pub encode_time : TimeFormat → T → ℤ → Option Bytes
  encode_time no_time t offset = none
  encode_time cds t offset = encode_cds t
  encode_time cuc t offset = encode_cuc t offset

module _ {T F : Type 0} (ch : Chrono T) (fl : Float F) where
  -- `cfg.max_skew_s > 0.0 && skew_s > cfg.max_skew_s`, for the instants `t` and `received`.
  abbrev pub is_skewed : F → T → T → Bool
  is_skewed max_skew_s t received =
      let millis = distance (ch.milliseconds_between t received) (pos 0) in
      let skew_s = fl.div (fl.of_u64 millis) (fl.lit 1000 0) in
      fl.lt (fl.lit 0 0) max_skew_s && fl.lt max_skew_s skew_s

-- The three assignments at the head of `resolve_frame_time`.
abbrev pub forget_time : {T S : Type 0} → TelemetryFrame T S → TelemetryFrame T S
forget_time frame = record frame { physics_flags_v2 = 0; onboard_time = none; time_field_len = 0 }

module _ {T S F : Type 0} (ch : Chrono T) (fl : Float F) where
  -- The arms of the `match` on the decoded time; `|=` meets flags that were set to zero before.
  unfoldable pub settle_time :
      TimeConfig F → TelemetryFrame T S → Result TimeError (Option T) → TelemetryFrame T S × T
  settle_time cfg frame (ok (some t)) =
      let timed : TelemetryFrame T S = record frame {
        onboard_time = some t;
        time_field_len = field_len cfg.format;
      } in
      if is_skewed ch fl cfg.max_skew_s t frame.received_at
      then (record timed { physics_flags_v2 = flag_v2_time_tag_skew }, frame.received_at)
      else (timed, t)
  settle_time cfg frame (ok none) = (frame, frame.received_at)
  settle_time cfg frame (err e) =
      (record frame { physics_flags_v2 = flag_v2_time_code_invalid }, frame.received_at)

  -- The new frame, and the instant at which physics is evaluated.
  unfoldable pub resolve_frame_time : TimeConfig F → TelemetryFrame T S → TelemetryFrame T S × T
  resolve_frame_time cfg frame0 =
      let frame = forget_time frame0 in
      if is_none_format cfg.format || not frame.has_secondary_header
      then (frame, frame.received_at)
      else settle_time cfg frame (decode_time ch cfg.format (payload frame) cfg.cuc_tai_minus_utc_s)
