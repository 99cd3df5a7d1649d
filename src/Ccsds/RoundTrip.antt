-- ===== src/Ccsds/RoundTrip.antt =====
-- `parse_telemetry` reads back what the synthetic encoder writes.
use chronus_gateway.Prelude.{
  ℕ, ◌+◌, ◌-◌, ◌*◌, ◌/◌, ◌%◌, ◌^◌, ◌≤◌, ◌<◌, ◌≡◌, ap, ◌∙◌, Bool, true, false, not, some, [], ◌∷◌,
  length, arith, Result, ok, le→not_ltb, take-length_append, length-append, ◌++◌, subst, ◌==◌,
}
use mathlib.Core.Option.{some-injective}
use chronus_gateway.Words.{Bytes, from_be_u16, be_hi, be_lo}
use chronus_gateway.Frames.Header.{bool_u16}
use chronus_gateway.Ccsds.{
  SpacePacketHeader, RawFrame, payload, accepted_frame, parse_telemetry, encode_tm,
}
use chronus_gateway.Ccsds.Accepted.{DecodesHeaders, header_fields}

-- The fields that the encoder was given.
abbrev pub header_of : ℕ → ℕ → Bool → Bytes → SpacePacketHeader
header_of apid seq_count secondary_header body = record {
  is_tm = true;
  sec_header_flag = secondary_header;
  apid = apid;
  seq_count = seq_count;
  data_len = length body - 1;
}

-- The six octets of the header before the data.
abbrev wire : ℕ → ℕ → Bool → Bytes → Bytes
wire apid seq flag rest =
    let word1 = bool_u16 flag * 2 ^ 11 + apid % 2 ^ 11 in
    let word2 = 0b11 * 2 ^ 14 + seq % 2 ^ 14 in
    let data_len = (length rest - 1) % 2 ^ 16 in
    be_hi word1 ∷ be_lo word1 ∷ be_hi word2 ∷ be_lo word2 ∷ be_hi data_len ∷ be_lo data_len ∷ rest

wire-encode_tm :
    (apid seq : ℕ) (flag : Bool) (body packet : Bytes)
    → encode_tm apid seq flag body ≡ some packet
    → (wire apid seq flag body ≡ packet) × (0 < length body)
unfolding encode_tm
wire-encode_tm apid seq flag [] packet e = absurd (ground arith)
wire-encode_tm apid seq flag (b ∷ body) packet e = (some-injective _ _ e, omega arith)

flag_lt : (b : Bool) → bool_u16 b < 2
flag_lt true = omega arith
flag_lt false = omega arith

flag_back : (b : Bool) (x : ℕ) → x ≡ bool_u16 b → (x == 1) ≡ b
flag_back true x e = ground arith
flag_back false x e = ground arith

header_fields-wire :
    (apid seq : ℕ) (flag : Bool) (body extra : Bytes)
    → apid < 2 ^ 11
    → seq < 2 ^ 14
    → 0 < length body
    → length body ≤ 65536
    → header_fields (wire apid seq flag body ++ extra) ≡ header_of apid seq flag body
header_fields-wire apid seq flag body extra ha hs lo hi =
    let word1 = bool_u16 flag * 2 ^ 11 + apid % 2 ^ 11 in
    let word2 = 0b11 * 2 ^ 14 + seq % 2 ^ 14 in
    let data_len = (length body - 1) % 2 ^ 16 in
    let f = flag_lt flag in
    let tm : from_be_u16 (be_hi word1) (be_lo word1) / 2 ^ 12 % 2 ≡ 0 = omega arith in
    let sec : from_be_u16 (be_hi word1) (be_lo word1) / 2 ^ 11 % 2 ≡ bool_u16 flag = omega arith in
    let id : from_be_u16 (be_hi word1) (be_lo word1) % 2 ^ 11 ≡ apid = omega arith in
    let count : from_be_u16 (be_hi word2) (be_lo word2) % 2 ^ 14 ≡ seq = omega arith in
    let size : from_be_u16 (be_hi data_len) (be_lo data_len) ≡ length body - 1 = omega arith in
    λ i. record {
      is_tm = not (flag_back false _ tm i);
      sec_header_flag = flag_back flag _ sec i;
      apid = id i;
      seq_count = count i;
      data_len = size i;
    }

-- A packet that the encoder writes for an 11-bit APID, a 14-bit count and 1 to 65536 octets of data
-- is accepted, with these values, and with exactly these octets as its data field, whatever bytes
-- follow it in the datagram.
pub parse_telemetry-encode_tm :
    {E T S : Type 0} (from_be_bytes : Bytes → Result E SpacePacketHeader) (apid seq : ℕ)
    (flag : Bool) (body packet extra : Bytes) (t : T) (s : S)
    → DecodesHeaders from_be_bytes
    → apid < 2 ^ 11
    → seq < 2 ^ 14
    → length body ≤ 65536
    → encode_tm apid seq flag body ≡ some packet
    → let raw : RawFrame T S = record { bytes = packet ++ extra; received_at = t; source = s } in
      (parse_telemetry from_be_bytes raw ≡ ok (accepted_frame raw (header_of apid seq flag body)))
      × (payload (accepted_frame raw (header_of apid seq flag body)) ≡ body)
unfolding parse_telemetry
parse_telemetry-encode_tm {E} {T} {S} from_be_bytes apid seq flag body packet extra t s decodes ha
      hs hl e =
    let (same, lo) = wire-encode_tm apid seq flag body packet e in
    let size = length-append body extra in
    let decoded =
      decodes (wire apid seq flag body ++ extra) (omega arith)
      ∙ ap ok (header_fields-wire apid seq flag body extra ha hs lo hl) in
    subst
      (λ p.
        let raw : RawFrame T S = record { bytes = p ++ extra; received_at = t; source = s } in
        (parse_telemetry from_be_bytes raw ≡ ok (accepted_frame raw (header_of apid seq flag body)))
        × (payload (accepted_frame raw (header_of apid seq flag body)) ≡ body))
      same
      (
        rw (
          decoded,
          le→not_ltb (length (wire apid seq flag body ++ extra)) 6 (omega arith),
          le→not_ltb (length (wire apid seq flag body ++ extra)) (6 + (length body - 1 + 1))
              (omega arith),
        ),
        take-length_append (length body - 1 + 1) body extra (omega arith),
      )
