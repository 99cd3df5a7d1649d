-- ===== src/Ccsds.antt =====
-- crates/gateway/src/ccsds.rs: Space Packets parsed into telemetry frames, and the synthetic encoder.
-- The primary header is decoded by the `spacepackets` crate, which is the parameter `from_be_bytes`.
pub mod Accepted
pub mod RoundTrip
pub mod Tests
use chronus_gateway.Prelude.{
  ℕ, ◌+◌, ◌-◌, ◌*◌, ◌%◌, ◌^◌, Bool, true, false, not, Option, none, some, List, [], ◌∷◌, ◌++◌, ltb,
  if◌then◌else◌, length, take, drop, Result, ok, err, ◌>>=◌, ◌>>◌, reject_if,
}
use chronus_gateway.Words.{Bytes, be_hi, be_lo}
use chronus_gateway.Frames.Deframer.{is_empty}
use chronus_gateway.Frames.Header.{bool_u16}

abbrev pub ccsds_primary_header_len : ℕ
ccsds_primary_header_len = 6

-- What the accessors of the crate's `SpacePacketHeader` return.
pub record SpacePacketHeader : Type 0 where
  pub is_tm : Bool
  pub sec_header_flag : Bool
  pub apid : ℕ
  pub seq_count : ℕ
  pub data_len : ℕ

-- `E` is the crate's `ByteConversionError`.
pub data CcsdsError (E : Type 0) : Type 0 where
  too_short : (len : ℕ) → CcsdsError E
  header : E → CcsdsError E
  truncated : (declared available : ℕ) → CcsdsError E
  not_telemetry : (apid : ℕ) → CcsdsError E

-- `T` is `DateTime<Utc>` and `S` is `SocketAddr`.
pub record RawFrame (T S : Type 0) : Type 0 where
  pub bytes : Bytes
  pub received_at : T
  pub source : S

pub record TelemetryFrame (T S : Type 0) : Type 0 where
  pub raw : Bytes
  pub payload_len : ℕ
  pub apid : ℕ
  pub seq_count : ℕ
  pub has_secondary_header : Bool
  pub received_at : T
  pub source : S
  pub physics_flags : ℕ
  pub physics_flags_v2 : ℕ
  pub onboard_time : Option T
  pub time_field_len : ℕ

module _ {T S : Type 0} where
  abbrev pub payload : TelemetryFrame T S → Bytes
  payload f = take f.payload_len (drop ccsds_primary_header_len f.raw)

  -- `self.payload().get(self.time_field_len..).unwrap_or(&[])`: past the end it is empty.
  abbrev pub user_data : TelemetryFrame T S → Bytes
  user_data f = drop f.time_field_len (payload f)

  -- The frame that is returned when every check has passed.
  abbrev pub accepted_frame : RawFrame T S → SpacePacketHeader → TelemetryFrame T S
  accepted_frame frame h = record {
    raw = frame.bytes;
    payload_len = h.data_len + 1;
    apid = h.apid;
    seq_count = h.seq_count;
    has_secondary_header = h.sec_header_flag;
    received_at = frame.received_at;
    source = frame.source;
    physics_flags = 0;
    physics_flags_v2 = 0;
    onboard_time = none;
    time_field_len = 0;
  }

-- `?` on the crate's result, through `From`.
abbrev pub from_header : {E A : Type 0} → Result E A → Result (CcsdsError E) A
from_header (ok a) = ok a
from_header (err e) = err (header e)

module _ {E T S : Type 0} (from_be_bytes : Bytes → Result E SpacePacketHeader) where
  unfoldable pub parse_telemetry : RawFrame T S → Result (CcsdsError E) (TelemetryFrame T S)
  parse_telemetry frame = do
    let raw = frame.bytes
    reject_if (ltb (length raw) ccsds_primary_header_len) (too_short (length raw))
    h ← from_header (from_be_bytes raw)
    let payload_len = h.data_len + 1
    let declared = ccsds_primary_header_len + payload_len
    reject_if (ltb (length raw) declared) (truncated declared (length raw))
    reject_if (not h.is_tm) (not_telemetry h.apid)
    ok (accepted_frame frame h)

-- The words are `u16`: version and type are zero, the sequence flags say unsegmented, and `|` of
-- disjoint fields is a sum. `none` is the panic of the `assert!`.
unfoldable pub encode_tm : ℕ → ℕ → Bool → Bytes → Option Bytes
encode_tm apid seq_count secondary_header body =
    let word1 = bool_u16 secondary_header * 2 ^ 11 + apid % 2 ^ 11 in
    let word2 = 0b11 * 2 ^ 14 + seq_count % 2 ^ 14 in
    let data_len = (length body - 1) % 2 ^ 16 in
    if is_empty body
    then none
    else some (
        be_hi word1
        ∷ be_lo word1
        ∷ be_hi word2
        ∷ be_lo word2
        ∷ be_hi data_len
        ∷ be_lo data_len
        ∷ body)

abbrev pub encode_synthetic_tm : ℕ → ℕ → Bytes → Option Bytes
encode_synthetic_tm apid seq_count body = encode_tm apid seq_count false body

abbrev pub encode_synthetic_tm_with_time : ℕ → ℕ → Bytes → Bytes → Option Bytes
encode_synthetic_tm_with_time apid seq_count time_field data_bytes =
    encode_tm apid seq_count true (time_field ++ data_bytes)
