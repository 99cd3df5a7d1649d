-- ===== src/Time/Codes.antt =====
-- A time that is encoded is decoded to the instant it was, within the resolution of its code.
use chronus_gateway.Prelude.{
  ℕ, ◌+◌, ◌*◌, ◌/◌, ◌%◌, ◌^◌, ◌<◌, ◌≤◌, ◌≡◌, refl, ap, ◌∙◌, sym, true, false, Option, some, [], ◌∷◌,
  ◌++◌, length, Result, ltb, leb, and_then, and_then-eq-some, arith,
}
use chronus_gateway.Words.{Bytes, be_hi, be_lo, be_u32, from_be_u16, from_be_u32-be_u32}
use chronus_gateway.Integers.{
  ℤ, pos, above_zero, below_zero, ◌+ℤ◌, ◌-ℤ◌, +ℤ-parts, -ℤ-parts, ℤ-ext, in_i64, checked_i64,
  to_unsigned,
}
use chronus_gateway.Time.{
  Chrono, TimeError, cds, cuc, time_field_len, TimeFormat, is_none_format, decode_field, ms_per_day,
  ccsds_epoch_unix_ms, ccsds_epoch_unix_s, instant, cds_field, decode_cds, decode_cuc, decode_time,
  encode_cds, encode_cuc,
}

-- What was subtracted is added again.
-ℤ-+ℤ : (a b : ℤ) (n : ℕ) → a -ℤ b ≡ pos n → b +ℤ pos n ≡ a
-ℤ-+ℤ a b n h =
    let above = ap above_zero h in
    let below = ap below_zero h in
    let parts = -ℤ-parts a b in let sum = +ℤ-parts b (pos n) in ℤ-ext (b +ℤ pos n) a (omega arith)

to_unsigned-eq-some :
    (bound : ℕ) (a : ℤ) (n : ℕ) → to_unsigned bound a ≡ some n → (a ≡ pos n) × (n < bound)
to_unsigned-eq-some bound a n h = ground arith

checked_i64-eq-some : (a b : ℤ) → checked_i64 a ≡ some b → a ≡ b
checked_i64-eq-some a b h = ground arith

-- The count of milliseconds of a field that was written, and its bytes.
cds_field-eq-some :
    (n : ℕ) (field : Bytes)
    → cds_field n ≡ some field
    → (n / ms_per_day < 2 ^ 16)
      × (be_hi (n / ms_per_day) ∷ be_lo (n / ms_per_day) ∷ be_u32 (n % ms_per_day) ≡ field)
cds_field-eq-some n field h = ground arith

from_be_u16-be : (x : ℕ) → x < 2 ^ 16 → from_be_u16 (be_hi x) (be_lo x) ≡ x
from_be_u16-be x h = omega arith

-- Of a long enough packet the six bytes at its head are decoded.
decode_time-six :
    {T : Type 0} (ch : Chrono T) (format : TimeFormat) (a b c d e f : ℕ) (rest : Bytes) (offset : ℤ)
    → is_none_format format ≡ false
    → decode_time ch format ((a ∷ b ∷ c ∷ d ∷ e ∷ f ∷ []) ++ rest) offset
      ≡ decode_field ch format (a ∷ b ∷ c ∷ d ∷ e ∷ f ∷ []) offset
unfolding decode_time
decode_time-six ch format a b c d e f rest offset timed =
    let long : ltb (length ((a ∷ b ∷ c ∷ d ∷ e ∷ f ∷ []) ++ rest)) time_field_len ≡ false =
      ground arith in
    rw timed (rw long refl)

-- A field of days and milliseconds of the day is decoded to the instant they add up to.
decode_cds-days :
    {T : Type 0} (ch : Chrono T) (days ms : ℕ)
    → days < 2 ^ 16
    → ms < ms_per_day
    → decode_cds ch (be_hi days ∷ be_lo days ∷ be_u32 ms)
      ≡ instant ch (
          and_then
            (checked_i64 (ccsds_epoch_unix_ms +ℤ pos (days * ms_per_day + ms)))
            ch.from_timestamp_millis)
unfolding decode_cds
decode_cds-days ch days ms hd hm =
    let not_leap : leb (ms_per_day + 1000) ms ≡ false = ground arith in
    rw (from_be_u16-be days hd) (rw (from_be_u32-be_u32 ms (omega arith)) (rw not_leap refl))

encode_cds-eq-some :
    {T : Type 0} (ch : Chrono T) (t : T) (field : Bytes)
    → encode_cds ch t ≡ some field
    → (n : ℕ) × (ccsds_epoch_unix_ms +ℤ pos n ≡ ch.timestamp_millis t) × (cds_field n ≡ some field)
unfolding encode_cds
encode_cds-eq-some ch t field h =
    let since = ch.timestamp_millis t -ℤ ccsds_epoch_unix_ms in
    let first = and_then-eq-some (checked_i64 since) _ h in
    let second = and_then-eq-some (to_unsigned (2 ^ 63) first.0) cds_field first.2 in
    let is_pos = (to_unsigned-eq-some (2 ^ 63) first.0 second.0 second.1).0 in
    let same = checked_i64-eq-some since first.0 first.1 in
    (second.0, -ℤ-+ℤ (ch.timestamp_millis t) ccsds_epoch_unix_ms second.0 (same ∙ is_pos), second.2)

pub encode_cds-length :
    {T : Type 0} (ch : Chrono T) (t : T) (field : Bytes)
    → encode_cds ch t ≡ some field
    → 6 ≡ length field
encode_cds-length ch t field h =
    let found = encode_cds-eq-some ch t field h in
    ap length (cds_field-eq-some found.0 field found.2).1

-- A CDS field that encodes an instant is decoded, whatever follows it in the packet, to the
-- instant that `chrono` makes of the milliseconds of the instant encoded, where these fit an `i64`.
pub decode_time-encode_cds :
    {T : Type 0} (ch : Chrono T) (t : T) (field rest : Bytes) (offset : ℤ)
    → in_i64 (ch.timestamp_millis t) ≡ true
    → encode_cds ch t ≡ some field
    → decode_time ch cds (field ++ rest) offset
      ≡ instant ch (ch.from_timestamp_millis (ch.timestamp_millis t))
decode_time-encode_cds ch t field rest offset fits h =
    let found = encode_cds-eq-some ch t field h in
    let n = found.0 in
    let parts = cds_field-eq-some n field found.2 in
    let again : n / ms_per_day * ms_per_day + n % ms_per_day ≡ n = omega arith in
    let days = decode_cds-days ch (n / ms_per_day) (n % ms_per_day) parts.0 (omega arith) in
    let six = decode_time-six ch cds _ _ _ _ _ _ rest offset refl in
    rw (sym parts.1) (six ∙ days ∙ rw again (rw found.1 (rw fits refl)))

-- The fraction of a second that a CUC field keeps of `nanos`: it lags by less than 1/65536 s.
abbrev kept_nanos : ℕ → ℕ
kept_nanos fine = fine * 1000000000 / 2 ^ 16 % 2 ^ 32

fine_resolution :
    (nanos fine : ℕ)
    → nanos < 1000000000
    → nanos * 2 ^ 16 / 1000000000 % 2 ^ 16 ≡ fine
    → (fine < 2 ^ 16) × (kept_nanos fine ≤ nanos) × (nanos ≤ kept_nanos fine + 15259)
fine_resolution nanos fine h e = (omega arith, omega arith, omega arith)

-- An offset that was added to a difference is taken off its sum.
+ℤ-undone : (a b offset : ℤ) (n : ℕ) → a -ℤ b +ℤ offset ≡ pos n → b +ℤ pos n -ℤ offset ≡ a
+ℤ-undone a b offset n h =
    let above = ap above_zero h in
    let below = ap below_zero h in
    let one = -ℤ-parts a b in
    let two = +ℤ-parts (a -ℤ b) offset in
    let three = +ℤ-parts b (pos n) in
    let four = -ℤ-parts (b +ℤ pos n) offset in ℤ-ext (b +ℤ pos n -ℤ offset) a (omega arith)

-- The instants that a CUC field may stand for.
pub record WithinResolution (T : Type 0) (ch : Chrono T) (t : T)
    (decoded : Result TimeError (Option T)) : Type 0 where
  pub nanos : ℕ
  pub not_after : nanos ≤ ch.timestamp_subsec_nanos t
  pub close : ch.timestamp_subsec_nanos t ≤ nanos + 15259
  pub decoded_as : decoded ≡ instant ch (ch.from_timestamp (ch.timestamp t) nanos)

decode_cuc-fields :
    {T : Type 0} (ch : Chrono T) (coarse fine : ℕ) (offset : ℤ)
    → coarse < 2 ^ 32
    → fine < 2 ^ 16
    → decode_cuc ch (be_u32 coarse ++ be_hi fine ∷ be_lo fine ∷ []) offset
      ≡ instant ch
          (ch.from_timestamp (ccsds_epoch_unix_s +ℤ pos coarse -ℤ offset) (kept_nanos fine))
unfolding decode_cuc
decode_cuc-fields ch coarse fine offset hc hf =
    rw (from_be_u32-be_u32 coarse hc) (rw (from_be_u16-be fine hf) refl)

-- A CUC field that encodes an instant with less than a whole second of nanoseconds is decoded with
-- the same offset, whatever follows it in the packet, to the same second and at most 15,259
-- nanoseconds before it, never after it.
pub decode_time-encode_cuc :
    {T : Type 0} (ch : Chrono T) (t : T) (field rest : Bytes) (offset : ℤ)
    → ch.timestamp_subsec_nanos t < 1000000000
    → encode_cuc ch t offset ≡ some field
    → WithinResolution T ch t (decode_time ch cuc (field ++ rest) offset)
unfolding encode_cuc
decode_time-encode_cuc ch t field rest offset whole h =
    let fine = ch.timestamp_subsec_nanos t * 2 ^ 16 / 1000000000 % 2 ^ 16 in
    let fraction = fine_resolution (ch.timestamp_subsec_nanos t) fine whole refl in
    let counted = ch.timestamp t -ℤ ccsds_epoch_unix_s +ℤ offset in
    let first = and_then-eq-some (to_unsigned (2 ^ 32) counted) _ h in
    let coarse = first.0 in
    let sound = to_unsigned-eq-some (2 ^ 32) counted coarse first.1 in
    let bytes : be_u32 coarse ++ be_hi fine ∷ be_lo fine ∷ [] ≡ field = cc in
    let six = decode_time-six ch cuc _ _ _ _ _ _ rest offset refl in
    record {
      nanos = kept_nanos fine;
      not_after = fraction.1;
      close = fraction.2;
      decoded_as = rw (sym bytes) (
          six
          ∙ decode_cuc-fields ch coarse fine offset sound.1 fraction.0
          ∙ rw (+ℤ-undone (ch.timestamp t) ccsds_epoch_unix_s offset coarse sound.0) refl);
    }
