-- ===== src/Frames/Parse.antt =====
-- `FrameError`, `TmFrame` and `parse_tm_frame` of crates/gateway/src/frames.rs.
pub mod Laws
use chronus_gateway.Prelude.{
  ℕ, zero, suc, ◌+◌, ◌-◌, ◌*◌, ◌%◌, ◌^◌, Bool, true, false, not, Option, none, some, List, [], ◌∷◌,
  ltb, leb, ◌==◌, if◌then◌else◌, length, take, drop, get_or, get_elem?, Result, ok, err, ◌>>=◌,
  ◌>>◌, reject_if, ok_or,
}
use chronus_gateway.Words.{Bytes, from_be_u16}
use chronus_gateway.Frames.Crc.{crc16_ccitt}
use chronus_gateway.Frames.Header.{TmFrameHeader}
use chronus_gateway.Frames.Header

abbrev pub tm_primary_header_len : ℕ
tm_primary_header_len = 6

abbrev pub tm_frame_max_len : ℕ
tm_frame_max_len = 2048

abbrev pub tm_frame_min_len : ℕ
tm_frame_min_len = 8

abbrev pub ocf_len : ℕ
ocf_len = 4

abbrev pub fecf_len : ℕ
fecf_len = 2

pub data FrameError : Type 0 where
  too_short : (len : ℕ) → FrameError
  not_tm : (version : ℕ) → FrameError
  fecf_mismatch : (computed received : ℕ) → FrameError
  not_packet_data : FrameError
  bad_secondary_header : (total : ℕ) → FrameError

-- The field that the source names `data` is `payload`.
pub record TmFrame : Type 0 where
  pub header : TmFrameHeader
  pub payload : Bytes
  pub ocf : Option Bytes

-- `&frame[start..end]`.
abbrev pub slice : ℕ → ℕ → Bytes → Bytes
slice start end bytes = take (end - start) (drop start bytes)

abbrev pub trailer_len : Bool → ℕ
trailer_len has_fecf = if has_fecf then fecf_len else 0

-- The two octets at `body_end`, which the length check puts inside the frame.
unfoldable pub check_fecf : Bool → Bytes → ℕ → Result FrameError (Unit {0})
check_fecf has_fecf frame body_end =
    let computed = crc16_ccitt (take body_end frame) in
    let received = from_be_u16 (get_or frame body_end 0) (get_or frame (body_end + 1) 0) in
    reject_if (if has_fecf then not (computed == received) else false)
      (fecf_mismatch computed received)

-- The new `end` and the Operational Control Field.
unfoldable pub take_ocf : Bool → Bytes → ℕ → ℕ → Result FrameError (ℕ × Option Bytes)
take_ocf false frame start end = ok (end, none)
take_ocf true frame start end = do
  reject_if (ltb end (start + ocf_len)) (too_short (length frame))
  ok (end - ocf_len, some (slice (end - ocf_len) end frame))

-- The new `start`, past a secondary header whose first octet holds its length minus one.
unfoldable pub skip_secondary_header : Bool → Bytes → ℕ → ℕ → Result FrameError ℕ
skip_secondary_header false frame start end = ok start
skip_secondary_header true frame start end = do
  id ← ok_or (get_elem? frame start) (too_short (length frame))
  let total = id % 2 ^ 6 + 1
  reject_if (ltb end (start + total)) (bad_secondary_header total)
  ok (start + total)

unfoldable pub parse_body : Bytes → ℕ → TmFrameHeader → Result FrameError TmFrame
parse_body frame body_end header = do
  reject_if (not (header.version == 0)) (not_tm header.version)
  reject_if header.sync_flag not_packet_data
  trimmed ← take_ocf header.ocf_present frame tm_primary_header_len body_end
  start ← skip_secondary_header header.secondary_header frame tm_primary_header_len trimmed.0
  reject_if (leb trimmed.0 start) (too_short (length frame))
  ok (record { header = header; payload = slice start trimmed.0 frame; ocf = trimmed.1 })

unfoldable pub parse_tm_frame : Bytes → Bool → Result FrameError TmFrame
parse_tm_frame frame has_fecf = do
  let trailer = trailer_len has_fecf
  reject_if (ltb (length frame) (tm_primary_header_len + trailer)) (too_short (length frame))
  let body_end = length frame - trailer
  check_fecf has_fecf frame body_end
  header ← ok_or (Header.parse frame) (too_short (length frame))
  parse_body frame body_end header
