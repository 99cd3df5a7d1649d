-- ===== src/Frames/Link/Frame.antt =====
-- What `handle_frame` does with one frame of the framer, received on an error-free link.
use chronus_gateway.Prelude.{
  concat, ℕ, ◌<◌, ◌≤◌, ◌≡◌, refl, ap, sym, ◌∙◌, subst, true, false, none, some, get_or, List, ◌++◌,
  length, drop, All, length-set, le→not_ltb, if◌then◌else◌, Bool-cases, inl, inr, ok,
}
use chronus_gateway.Words.{Bytes}
use chronus_gateway.Frames.Randomizer.{ccsds_randomize}
use chronus_gateway.Frames.Randomizer.Involution.{randomize_twice, length-ccsds_randomize}
use chronus_gateway.Frames.Parse.{TmFrame, parse_tm_frame, tm_frame_min_len, tm_frame_max_len}
use chronus_gateway.Frames.Deframer.{
  Sink, VcState, TmDeframer, fresh_vc, fhp_idle, is_wrong_length, note_mc_count, accept_vc, accept,
  settle, handle_frame, note_vc_count,
}
use chronus_gateway.Frames.Deframer.Drain.{IsPacket, IsPartial}
use chronus_gateway.Frames.Deframer.Reassembly.{extract_acquires}
use chronus_gateway.Frames.Deframer.Accept.{
  IsWanted, Outcome, vc_of, ctx_of, note_mc_same, accept-accept_vc, frame_counted,
  accept_vc-Outcome, accept_by_vc,
}

note_vc_count_first :
    (count : ℕ) (vc : VcState) (s : Sink)
    → vc.last_count ≡ none
    → note_vc_count count vc s ≡ (record vc { last_count = some count }, s)
unfolding note_vc_count
note_vc_count_first count vc s was = rw was

-- The first frame of a channel: it has no counter to compare with, and packets start in it.
pub accept_first :
    (d : TmDeframer) (f : TmFrame) (started : List Bytes) (t : Bytes)
    → IsWanted d f
    → (vc_of d f.header.vcid).in_sync ≡ false
    → (vc_of d f.header.vcid).last_count ≡ none
    → f.header.first_header_pointer < length f.payload
    → f.header.first_header_pointer < fhp_idle
    → All IsPacket started
    → drop f.header.first_header_pointer f.payload ≡ concat started ++ t
    → IsPartial t
    → Outcome d (accept d f) f started t
accept_first d f started t w out was l i wh dr h =
    let m = note_mc_count f.header.mc_frame_count d in
    let same = (note_mc_same f.header.mc_frame_count d).0 in
    let vc = ap (λ l. get_or l f.header.vcid fresh_vc) same in
    let exists = subst (λ l. f.header.vcid < length l) (sym same) w.exists in
    let counted = frame_counted m in
    let noted : VcState = record (vc_of m f.header.vcid) {
      last_count = some f.header.vc_frame_count;
    } in
    accept_by_vc d f w (
      accept_vc-Outcome m f started t exists noted counted refl
        (note_vc_count_first f.header.vc_frame_count (vc_of m f.header.vcid) counted
          (ap (λ v. v.last_count) vc ∙ was))
        refl
        (extract_acquires (ctx_of f) f.header.first_header_pointer f.payload noted started t counted
          (ap (λ v. v.in_sync) vc ∙ out) l i wh dr h))

-- `accept` changes neither the configuration nor the number of channels.
pub accept-config :
    (d : TmDeframer) (f : TmFrame)
    → IsWanted d f
    → ((accept d f).config ≡ d.config) × (length (accept d f).vcs ≡ length d.vcs)
unfolding accept_vc
accept-config d f w =
    let same = note_mc_same f.header.mc_frame_count d in
    rw (accept-accept_vc d f w) (same.2, length-set _ f.header.vcid _ ∙ ap length same.0)

-- The frame as a link with or without the randomizer carries it.
abbrev pub on_air : TmDeframer → Bytes → Bytes
on_air d f = if d.derandomize then ccsds_randomize f else f

length-on_air : (d : TmDeframer) (f : Bytes) → length (on_air d f) ≡ length f
length-on_air d f = elim (Bool-cases d.derandomize) [
  | inl on ↦ rw on (length-ccsds_randomize f)
  | inr off ↦ rw off
]

descrambled :
    (d : TmDeframer) (f : Bytes)
    → (if d.derandomize then ccsds_randomize (on_air d f) else on_air d f) ≡ f
descrambled d f = elim (Bool-cases d.derandomize) [
  | inl on ↦ rw on (randomize_twice f)
  | inr off ↦ rw off
]

-- A frame of an allowed length that the parser reads reaches `accept`.
pub handle_frame-accept :
    (d : TmDeframer) (f : Bytes) (frame : TmFrame)
    → tm_frame_min_len ≤ length f
    → length f ≤ tm_frame_max_len
    → is_wrong_length d.frame_length (length f) ≡ false
    → parse_tm_frame f d.fecf ≡ ok frame
    → handle_frame d (on_air d f) ≡ (accept d frame, true)
unfolding handle_frame settle
handle_frame-accept d f frame lo hi size parsed =
    rw (descrambled d f, length-on_air d f, le→not_ltb _ _ lo, le→not_ltb _ _ hi, size, parsed)
