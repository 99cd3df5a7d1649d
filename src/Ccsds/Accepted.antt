-- ===== src/Ccsds/Accepted.antt =====
-- What `parse_telemetry` accepts, and how it fits the packets that the deframer extracts.
use chronus_gateway.Prelude.{
  ◌+◌, ◌%◌, ◌^◌, ◌≤◌, ◌<◌, ◌≡◌, refl, subst, false, not, ltb, length, take, drop, get_or, arith,
  length-take, length-drop, Result, ok, err, >>=-eq-ok, reject_if, Bool-cases, inl, inr, le→not_ltb,
  take-length, ◌⊎◌,
}
use chronus_gateway.Words.{Bytes, from_be_u16, bit_set}
use chronus_gateway.Frames.Deframer.{packet_apid}
use chronus_gateway.Frames.Deframer.Drain.{IsPacket}
use chronus_gateway.Ccsds.{
  SpacePacketHeader, too_short, not_telemetry, RawFrame, TelemetryFrame, payload, accepted_frame,
  from_header, parse_telemetry,
}

-- The fields of CCSDS 133.0-B-2 at the front of the bytes.
abbrev pub header_fields : Bytes → SpacePacketHeader
header_fields b = record {
  is_tm = not (bit_set (from_be_u16 (get_or b 0 0) (get_or b 1 0)) 12);
  sec_header_flag = bit_set (from_be_u16 (get_or b 0 0) (get_or b 1 0)) 11;
  apid = from_be_u16 (get_or b 0 0) (get_or b 1 0) % 2 ^ 11;
  seq_count = from_be_u16 (get_or b 2 0) (get_or b 3 0) % 2 ^ 14;
  data_len = from_be_u16 (get_or b 4 0) (get_or b 5 0);
}

-- The documented behaviour of `SpacePacketHeader::from_be_bytes`: six octets are enough, and the
-- fields are those of the standard.
abbrev pub DecodesHeaders : {E : Type 0} → (Bytes → Result E SpacePacketHeader) → Type 0
DecodesHeaders from_be_bytes = (b : Bytes) → 6 ≤ length b → from_be_bytes b ≡ ok (header_fields b)

module _ {E T S : Type 0} (from_be_bytes : Bytes → Result E SpacePacketHeader) where
  abbrev Fits : RawFrame T S → TelemetryFrame T S → Type 0
  Fits raw f =
      (f.raw ≡ raw.bytes)
      × (6 + f.payload_len ≤ length f.raw)
      × (length (payload f) ≡ f.payload_len)
      × (0 < f.payload_len)

  -- Whatever the header decoder does, an accepted frame holds its whole data field, which is not
  -- empty: the slice in `payload` is inside the datagram and has the declared length.
  pub parse_telemetry-length :
      (raw : RawFrame T S) {f : TelemetryFrame T S}
      → parse_telemetry from_be_bytes raw ≡ ok f
      → (f.raw ≡ raw.bytes)
        × (6 + f.payload_len ≤ length f.raw)
        × (length (payload f) ≡ f.payload_len)
        × (0 < f.payload_len)
  unfolding parse_telemetry
  parse_telemetry-length raw {f} e =
      let n = length raw.bytes in
      let (_, _, e1) = >>=-eq-ok (reject_if (ltb n 6) (too_short n)) _ e in
      let (h, _, e2) = >>=-eq-ok (from_header (from_be_bytes raw.bytes)) _ e1 in
      let (_, long, e3) = >>=-eq-ok (reject_if (ltb n (6 + (h.data_len + 1))) _) _ e2 in
      let (_, _, e4) = >>=-eq-ok (reject_if (not h.is_tm) (not_telemetry h.apid)) _ e3 in
      let fits : 6 + (h.data_len + 1) ≤ n = ground arith in
      let same : accepted_frame raw h ≡ f = ground arith in
      let size = length-take (h.data_len + 1) (drop 6 raw.bytes) in
      let rest = length-drop 6 raw.bytes in
      subst (Fits raw) same (refl, fits, omega arith, omega arith)

  -- A packet that the deframer extracts is never refused as too short or truncated: it is accepted
  -- whole, with the octets behind its header as data field, or it is a telecommand.
  pub parse_telemetry-IsPacket :
      (raw : RawFrame T S)
      → DecodesHeaders from_be_bytes
      → IsPacket raw.bytes
      → (((f : TelemetryFrame T S) × (parse_telemetry from_be_bytes raw ≡ ok f)
            × (payload f ≡ drop 6 raw.bytes)
            × (f.apid ≡ packet_apid raw.bytes))
          ⊎ (parse_telemetry from_be_bytes raw ≡ err (not_telemetry (packet_apid raw.bytes))))
  unfolding parse_telemetry
  parse_telemetry-IsPacket raw decodes p =
      let b = raw.bytes in
      let long : 7 ≤ length b = omega (arith, p.whole) in
      let decoded = decodes b (omega arith) in
      let header_ok = le→not_ltb (length b) 6 (omega arith) in
      let whole : ltb (length b) (6 + ((header_fields b).data_len + 1)) ≡ false =
        le→not_ltb _ _ (omega (arith, p.whole)) in
      let all : take ((header_fields b).data_len + 1) (drop 6 b) ≡ drop 6 b =
        take-length _ (drop 6 b) (omega (arith, p.whole, length-drop 6 b)) in
      elim (Bool-cases (header_fields b).is_tm) [
        | inl tm ↦
            inl
              (accepted_frame raw (header_fields b), rw (header_ok, decoded, whole, tm), all, refl)
        | inr tc ↦ inr (rw (header_ok, decoded, whole, tc))
      ]
