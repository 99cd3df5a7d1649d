-- ===== src/Frames/Builder/Encode.antt =====
-- The frames and the filler packets that the builder writes are read back by the deframer's parser.
use chronus_gateway.Prelude.{
  ℕ, ◌+◌, ◌-◌, ◌^◌, ◌≤◌, ◌<◌, ◌≡◌, refl, ap, sym, ◌∙◌, Bool, true, false, none, [], ◌∷◌, ◌++◌, ltb,
  leb, ◌==◌, length, max, arith, length-append, length-replicate, append_assoc, append-nil, ok,
  take-length_append,
}
use chronus_gateway.Words.{Bytes, from_be_u16, be_hi, be_lo}
use chronus_gateway.Frames.Crc.{crc16_ccitt}
use chronus_gateway.Frames.Crc.Detection.{crc16_ccitt-lt}
use chronus_gateway.Frames.Header.{TmFrameHeader, to_bytes}
use chronus_gateway.Frames.Header
use chronus_gateway.Frames.Header.RoundTrip.{IsValid, parse-to_bytes}
use chronus_gateway.Frames.Parse.{
  parse_body, parse_tm_frame, take_ocf, skip_secondary_header, check_fecf,
}
use chronus_gateway.Frames.Parse.Laws.{parse_tm_frame_trailer}
use chronus_gateway.Frames.Deframer.{packet_apid, idle_apid}
use chronus_gateway.Frames.Deframer.Drain.{IsPacket}
use chronus_gateway.Frames.Builder.{TmFrameBuilder, frame_header, with_crc, frame, idle_packet}

pub length-to_bytes : (h : TmFrameHeader) → length (to_bytes h) ≡ 6
unfolding to_bytes
length-to_bytes h = refl

-- The parser's work behind the header, on a header with no optional field.
parse_body_plain :
    (b : TmFrameBuilder) (vcid fhp : ℕ) (payload rest : Bytes)
    → 0 < length payload
    → parse_body
        ((to_bytes (frame_header b vcid fhp) ++ payload) ++ rest)
        (6 + length payload)
        (frame_header b vcid fhp)
      ≡ ok (record { header = frame_header b vcid fhp; payload = payload; ocf = none })
unfolding parse_body take_ocf skip_secondary_header to_bytes
parse_body_plain b vcid fhp payload rest h =
    let room : leb (6 + length payload) 6 ≡ false = ground arith in
    let cut : 6 + length payload - 6 ≡ length payload = omega arith in
    rw (room, cut, take-length_append (length payload) payload rest refl)

be_u16 : (x : ℕ) → x < 2 ^ 16 → from_be_u16 (be_hi x) (be_lo x) ≡ x
be_u16 x h = omega arith

-- The body that the builder writes, before the CRC.
abbrev body_of : TmFrameBuilder → ℕ → ℕ → Bytes → Bytes
body_of b vcid fhp payload = to_bytes (frame_header b vcid fhp) ++ payload

parse_tm_frame_body :
    (b : TmFrameBuilder) (vcid fhp : ℕ) (payload : Bytes) (has_fecf : Bool)
    → IsValid (frame_header b vcid fhp)
    → 0 < length payload
    → parse_tm_frame (with_crc has_fecf (body_of b vcid fhp payload)) has_fecf
      ≡ ok (record { header = frame_header b vcid fhp; payload = payload; ocf = none })
unfolding parse_tm_frame check_fecf
parse_tm_frame_body b vcid fhp payload true v h =
    let h' = frame_header b vcid fhp in
    let body = body_of b vcid fhp payload in
    let crc = crc16_ccitt body in
    let trailer = be_hi crc ∷ be_lo crc ∷ [] in
    let size : length body ≡ 6 + length payload =
      length-append (to_bytes h') payload ∙ ap (λ n. n + length payload) (length-to_bytes h') in
    let matches : (crc == from_be_u16 (be_hi crc) (be_lo crc)) ≡ true =
      ground (arith, be_u16 crc (crc16_ccitt-lt body)) in
    let header =
      ap Header.parse (append_assoc (to_bytes h') payload trailer)
      ∙ parse-to_bytes h' (payload ++ trailer) v in
    parse_tm_frame_trailer body (be_hi crc) (be_lo crc) (omega arith)
    ∙ rw (matches, header, size) (parse_body_plain b vcid fhp payload trailer h)
parse_tm_frame_body b vcid fhp payload false v h =
    let h' = frame_header b vcid fhp in
    let body = body_of b vcid fhp payload in
    let size : length body ≡ 6 + length payload =
      length-append (to_bytes h') payload ∙ ap (λ n. n + length payload) (length-to_bytes h') in
    let long : ltb (length body) 6 ≡ false = ground arith in
    let cut : length body - 0 ≡ 6 + length payload = omega arith in
    let plain =
      ap (λ bytes. parse_body bytes (6 + length payload) h') (sym (append-nil body))
      ∙ parse_body_plain b vcid fhp payload [] h in
    rw (long, cut, parse-to_bytes h' payload v) plain

-- Every frame that the builder writes, on a channel below 8 with a pointer of 11 bits and a
-- non-empty data field, is accepted by the parser and read back whole: the header with the
-- builder's counters, the data field, and no Operational Control Field.
pub parse_tm_frame-frame :
    (b : TmFrameBuilder) (vcid fhp : ℕ) (payload : Bytes)
    → IsValid (frame_header b vcid fhp)
    → 0 < length payload
    → parse_tm_frame (frame vcid fhp payload b).1 b.fecf
      ≡ ok (record { header = frame_header b vcid fhp; payload = payload; ocf = none })
unfolding frame
parse_tm_frame-frame b vcid fhp payload v h = parse_tm_frame_body b vcid fhp payload b.fecf v h

-- Filler of any length from 7 to the largest packet is one whole idle packet of that length.
pub idle_packet-IsPacket :
    (len : ℕ)
    → 7 ≤ len
    → len ≤ 65542
    → IsPacket (idle_packet len)
      × (packet_apid (idle_packet len) ≡ idle_apid)
      × (length (idle_packet len) ≡ len)
unfolding idle_packet
idle_packet-IsPacket len lo hi =
    let fill = length-replicate {A = ℕ} (max len 7 - 6) 0x55 in
    (record { version_zero = refl; whole = omega (arith, fill) }, refl, omega (arith, fill))
