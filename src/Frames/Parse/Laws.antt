-- ===== src/Frames/Parse/Laws.antt =====
-- What `parse_tm_frame` accepts and what it gives back.
use chronus_gateway.Prelude.{
  ℕ, ◌+◌, ◌-◌, ◌≤◌, ◌<◌, ◌≡◌, ◌≢◌, refl, ap, sym, ◌∙◌, Bool, true, false, not, Option, some, ◌==◌,
  ltb, length, take, drop, get_or, ok, err, ◌>>=◌, >>=-eq-ok, reject_if, ok_or, arith, min,
  length-take, length-drop, length-append, take-length_append, get_or_at, le→not_ltb, ◌++◌, ◌>>◌,
  [], ◌∷◌,
}
use chronus_gateway.Words.{Bytes, IsByte, from_be_u16}
use chronus_gateway.Frames.Crc.{crc16_ccitt}
use chronus_gateway.Frames.Crc.Detection.{crc16_ccitt_one_octet}
use chronus_gateway.Frames.Header.{TmFrameHeader}
use chronus_gateway.Frames.Header
use chronus_gateway.Frames.Parse.{
  too_short, fecf_mismatch, TmFrame, slice, trailer_len, check_fecf, take_ocf,
  skip_secondary_header, parse_body, parse_tm_frame,
}

-- The bounds that an accepted data field meets in a frame whose body ends at `body_end`.
record BodyOk (frame : Bytes) (body_end : ℕ) (h : TmFrameHeader) (f : TmFrame) : Type 0 where
  header_same : f.header ≡ h
  version_zero : h.version ≡ 0
  packet_data : h.sync_flag ≡ false
  start : ℕ
  end : ℕ
  payload_is : f.payload ≡ slice start end frame
  start_after_header : 6 ≤ start
  start_before_end : start < end
  end_within : end ≤ body_end

take_ocf-le :
    (b : Bool) (frame : Bytes) (start end : ℕ) {t : ℕ × Option Bytes}
    → take_ocf b frame start end ≡ ok t
    → t.0 ≤ end
unfolding take_ocf
take_ocf-le true frame start end e = ground arith
take_ocf-le false frame start end e = ground arith

skip-le :
    (b : Bool) (frame : Bytes) (start end : ℕ) {s : ℕ}
    → skip_secondary_header b frame start end ≡ ok s
    → start ≤ s
unfolding skip_secondary_header
skip-le true frame start end e = ground arith
skip-le false frame start end e = ground arith

parse_body-BodyOk :
    (frame : Bytes) (body_end : ℕ) (h : TmFrameHeader) {f : TmFrame}
    → parse_body frame body_end h ≡ ok f
    → BodyOk frame body_end h f
unfolding parse_body
parse_body-BodyOk frame body_end h {f} e =
    let (_, v, e1) = >>=-eq-ok (reject_if (not (h.version == 0)) _) _ e in
    let (_, s, e2) = >>=-eq-ok (reject_if h.sync_flag _) _ e1 in
    let (t, o, e3) = >>=-eq-ok (take_ocf h.ocf_present frame 6 body_end) _ e2 in
    let (start, k, e4) = >>=-eq-ok (skip_secondary_header h.secondary_header frame 6 t.0) _ e3 in
    let le1 = take_ocf-le h.ocf_present frame 6 body_end o in
    let le2 = skip-le h.secondary_header frame 6 t.0 k in
    record {
      header_same = ground arith;
      version_zero = ground arith;
      packet_data = ground arith;
      start = start;
      end = t.0;
      payload_is = ground arith;
      start_after_header = le2;
      start_before_end = ground arith;
      end_within = le1;
    }

-- What a caller knows of a frame that was accepted.
pub record IsAccepted (frame : Bytes) (has_fecf : Bool) (f : TmFrame) : Type 0 where
  pub header_parsed : Header.parse frame ≡ some f.header
  pub version_zero : f.header.version ≡ 0
  pub packet_data : f.header.sync_flag ≡ false
  pub checksum :
      has_fecf ≡ true
      → crc16_ccitt (take (length frame - 2) frame)
        ≡ from_be_u16 (get_or frame (length frame - 2) 0) (get_or frame (length frame - 2 + 1) 0)
  pub start : ℕ
  pub end : ℕ
  pub payload_is : f.payload ≡ slice start end frame
  pub start_after_header : 6 ≤ start
  pub start_before_end : start < end
  pub end_before_trailer : end + trailer_len has_fecf ≤ length frame

check_fecf_sound :
    (frame : Bytes) {u : Unit {0}}
    → check_fecf true frame (length frame - 2) ≡ ok u
    → crc16_ccitt (take (length frame - 2) frame)
      ≡ from_be_u16 (get_or frame (length frame - 2) 0) (get_or frame (length frame - 2 + 1) 0)
unfolding check_fecf
check_fecf_sound frame e = ground arith

trailer_len-checksum :
    (frame : Bytes) (has_fecf : Bool) {u : Unit {0}}
    → check_fecf has_fecf frame (length frame - trailer_len has_fecf) ≡ ok u
    → has_fecf ≡ true
    → crc16_ccitt (take (length frame - 2) frame)
      ≡ from_be_u16 (get_or frame (length frame - 2) 0) (get_or frame (length frame - 2 + 1) 0)
trailer_len-checksum frame true e t = check_fecf_sound frame e
trailer_len-checksum frame false e t = cc

-- An accepted frame has a version 0 header that says packet data, a matching CRC where one is
-- expected, and a non-empty data field between the primary header and the trailer.
pub parse_tm_frame-IsAccepted :
    (frame : Bytes) (has_fecf : Bool) {f : TmFrame}
    → parse_tm_frame frame has_fecf ≡ ok f
    → IsAccepted frame has_fecf f
unfolding parse_tm_frame
parse_tm_frame-IsAccepted frame has_fecf {f} e =
    let (_, long, e1) =
      >>=-eq-ok (reject_if (ltb (length frame) (6 + trailer_len has_fecf)) _) _ e in
    let (_, sum, e2) = >>=-eq-ok (check_fecf has_fecf frame _) _ e1 in
    let (h, parsed, e3) = >>=-eq-ok (ok_or (Header.parse frame) _) _ e2 in
    let b = parse_body-BodyOk frame (length frame - trailer_len has_fecf) h e3 in
    record {
      header_parsed = ground (arith, b.header_same);
      version_zero = ground (arith, b.header_same, b.version_zero);
      packet_data = ground (arith, b.header_same, b.packet_data);
      checksum = trailer_len-checksum frame has_fecf sum;
      start = b.start;
      end = b.end;
      payload_is = b.payload_is;
      start_after_header = b.start_after_header;
      start_before_end = b.start_before_end;
      end_before_trailer = ground (arith, b.start_before_end, b.end_within);
    }

-- The data field is never empty, and never longer than the frame less its header and trailer.
pub parse_tm_frame-length :
    (frame : Bytes) (has_fecf : Bool) {f : TmFrame}
    → parse_tm_frame frame has_fecf ≡ ok f
    → (0 < length f.payload) × (length f.payload + 6 + trailer_len has_fecf ≤ length frame)
parse_tm_frame-length frame has_fecf {f} e =
    let a = parse_tm_frame-IsAccepted frame has_fecf e in
    let size : length f.payload ≡ min (a.end - a.start) (length frame - a.start) =
      ap length a.payload_is
      ∙ length-take (a.end - a.start) (drop a.start frame)
      ∙ ap (min (a.end - a.start)) (length-drop a.start frame) in
    (
      omega (arith, size, a.start_before_end, a.end_before_trailer),
      omega (arith, size, a.start_before_end, a.end_before_trailer, a.start_after_header),
    )

-- The two octets that the check reads, in a frame written as a body and a trailer.
check_fecf-trailer :
    (body : Bytes) (c1 c2 : ℕ)
    → check_fecf true (body ++ c1 ∷ c2 ∷ []) (length body)
      ≡ reject_if
          (not (crc16_ccitt body == from_be_u16 c1 c2))
          (fecf_mismatch (crc16_ccitt body) (from_be_u16 c1 c2))
unfolding check_fecf
check_fecf-trailer body c1 c2 = rw (
  take-length_append (length body) body (c1 ∷ c2 ∷ []) refl,
  get_or_at body (c1 ∷ c2 ∷ []) 0 (length body) 0 (omega arith),
  get_or_at body (c1 ∷ c2 ∷ []) 1 (length body + 1) 0 (omega arith),
)

pub parse_tm_frame_trailer :
    (body : Bytes) (c1 c2 : ℕ)
    → 6 ≤ length body
    → parse_tm_frame (body ++ c1 ∷ c2 ∷ []) true ≡ (
        reject_if
          (not (crc16_ccitt body == from_be_u16 c1 c2))
          (fecf_mismatch (crc16_ccitt body) (from_be_u16 c1 c2))
        >> (ok_or (Header.parse (body ++ c1 ∷ c2 ∷ [])) (too_short (length (body ++ c1 ∷ c2 ∷ [])))
            >>= λ header. parse_body (body ++ c1 ∷ c2 ∷ []) (length body) header))
unfolding parse_tm_frame
parse_tm_frame_trailer body c1 c2 h =
    let size = length-append body (c1 ∷ c2 ∷ []) in
    let long : ltb (length (body ++ c1 ∷ c2 ∷ [])) 8 ≡ false =
      le→not_ltb _ _ (omega (arith, size)) in
    let cut : length (body ++ c1 ∷ c2 ∷ []) - 2 ≡ length body = omega (arith, size) in
    rw (long, cut, check_fecf-trailer body c1 c2)

-- A frame that was accepted by its CRC is refused with `FecfMismatch` when exactly one octet of
-- its body, at any place, arrives wrong and the trailer arrives right.
pub parse_tm_frame_one_octet :
    (before : Bytes) (x y : ℕ) (after : Bytes) (c1 c2 : ℕ) {f : TmFrame}
    → IsByte x
    → IsByte y
    → x ≢ y
    → parse_tm_frame ((before ++ x ∷ after) ++ c1 ∷ c2 ∷ []) true ≡ ok f
    → parse_tm_frame ((before ++ y ∷ after) ++ c1 ∷ c2 ∷ []) true
      ≡ err (fecf_mismatch (crc16_ccitt (before ++ y ∷ after)) (from_be_u16 c1 c2))
parse_tm_frame_one_octet before x y after c1 c2 hx hy differs e =
    let size_x = length-append before (x ∷ after) in
    let size_y = length-append before (y ∷ after) in
    let frame_size = length-append (before ++ x ∷ after) (c1 ∷ c2 ∷ []) in
    let bounds = parse_tm_frame-length _ true e in
    let long_x : 6 ≤ length (before ++ x ∷ after) = omega arith in
    let long_y : 6 ≤ length (before ++ y ∷ after) = omega arith in
    let (_, sum, _) =
      >>=-eq-ok (reject_if (not (crc16_ccitt (before ++ x ∷ after) == from_be_u16 c1 c2)) _) _
        (sym (parse_tm_frame_trailer (before ++ x ∷ after) c1 c2 long_x) ∙ e) in
    let other = crc16_ccitt_one_octet before x y after hx hy differs in
    let matches : crc16_ccitt (before ++ x ∷ after) ≡ from_be_u16 c1 c2 = ground arith in
    let wrong : (crc16_ccitt (before ++ y ∷ after) == from_be_u16 c1 c2) ≡ false = ground arith in
    parse_tm_frame_trailer (before ++ y ∷ after) c1 c2 long_y ∙ rw wrong
