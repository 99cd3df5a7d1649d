-- ===== src/Frames/Deframer/Invariant.antt =====
-- The well-formedness of the deframer's state: every operation keeps it, and it bounds the buffers.
use chronus_gateway.Prelude.{
  concat, ℕ, ◌-◌, ◌<◌, ◌≡◌, refl, sym, ◌∙◌, subst, Bool, true, false, not, ◌&&◌, inl, inr, List, [],
  ◌++◌, leb, ◌==◌, if◌then◌else◌, length, All, replicate, arith, All-append, All-append_right,
  All-set, All-get_or, All-take, All-drop, All-replicate, length-set, Result, ok, err, Bool-cases,
  some,
}
use chronus_gateway.Words.{Bytes, IsByte, IsBytes}
use chronus_gateway.Frames.Randomizer.{ccsds_randomize}
use chronus_gateway.Frames.Randomizer.Involution.{ccsds_randomize-IsBytes}
use chronus_gateway.Frames.Parse.{FrameError, TmFrame, parse_tm_frame}
use chronus_gateway.Frames.Parse.Laws.{parse_tm_frame-IsAccepted}
use chronus_gateway.Frames.Deframer.{
  Sink, VcState, EmitCtx, TmDeframer, fresh_vc, lose_sync, is_gap, note_vc_count, note_mc_count,
  extract, drain_packets, accept_vc, accept, settle, handle_frame, is_other_spacecraft, is_filtered,
  fhp_idle, fhp_no_packet_start,
}
use chronus_gateway.Frames.Deframer.Drain.{IsPartial}
use chronus_gateway.Frames.Deframer.Drain.Total.{drain_packets-Drained}

-- A channel buffers at most the beginning of one packet, and nothing when it is out of sync.
pub record VcOk (vc : VcState) : Type 0 where
  pub octets : IsBytes vc.pending
  pub partial : IsPartial vc.pending
  pub synced : vc.in_sync ≡ false → vc.pending ≡ []

pub record ChannelsOk (vcs : List VcState) : Type 0 where
  pub eight : length vcs ≡ 8
  pub channels : All VcOk vcs

abbrev pub DeframerOk : TmDeframer → Type 0
DeframerOk d = ChannelsOk d.vcs

empty-VcOk : (b : Bool) (vc : VcState) → VcOk (record vc { pending = []; in_sync = b })
empty-VcOk b vc = record { octets = tt; partial = inl (omega arith); synced = λ _. refl }

drain_packets-VcOk :
    (ctx : EmitCtx) (vc : VcState) (s : Sink)
    → IsBytes vc.pending
    → vc.in_sync ≡ true
    → VcOk (drain_packets ctx vc s).0
unfolding lose_sync
drain_packets-VcOk ctx vc s bytes sync =
    let r = drain_packets-Drained ctx vc s in
    elim r.result [
      | inl (part, e) ↦ rw e (record {
        octets = All-append_right IsByte (concat r.packets) r.tail (subst IsBytes r.splits bytes);
        partial = part;
        synced = λ out. cc;
      })
      | inr (_, e) ↦ rw e (empty-VcOk false vc)
    ]

note_vc_count-VcOk :
    (count : ℕ) (vc : VcState) (s : Sink) → VcOk vc → VcOk (note_vc_count count vc s).0
unfolding note_vc_count lose_sync
note_vc_count-VcOk count vc s v = elim (Bool-cases (is_gap vc.last_count count)) [
  | inl gap ↦ rw gap (empty-VcOk false (record vc { last_count = some count }))
  | inr same ↦ rw same (record { octets = v.octets; partial = v.partial; synced = v.synced })
]

extract-VcOk :
    (ctx : EmitCtx) (fhp : ℕ) (payload : Bytes) (vc : VcState) (s : Sink)
    → IsBytes payload
    → VcOk vc
    → VcOk (extract ctx fhp payload vc s).0
unfolding extract lose_sync
extract-VcOk ctx fhp payload vc s bytes v = elim (Bool-cases (fhp == fhp_idle)) [
  | inl idle ↦ rw idle v
  | inr real ↦ elim (Bool-cases (not (fhp == fhp_no_packet_start) && leb (length payload) fhp)) [
    | inl past ↦ rw (real, past) (empty-VcOk false vc)
    | inr inside ↦ elim (Bool-cases (fhp == fhp_no_packet_start)) [
      | inl nothing ↦ elim (Bool-cases vc.in_sync) [
        | inl sync ↦
            rw (real, inside, nothing, sync)
              (drain_packets-VcOk ctx
                (record vc { pending = vc.pending ++ payload; in_sync = true }) s
                (All-append IsByte vc.pending payload v.octets bytes) refl)
        | inr out ↦
            rw (real, inside, nothing, out) (subst (λ b. VcOk (record vc { in_sync = b })) out v)
      ]
      | inr start ↦
          rw (real, inside, start)
            (drain_packets-VcOk ctx _ _ (All-drop IsByte fhp payload bytes) refl)
    ]
  ]
]

accept_vc-DeframerOk :
    (f : TmFrame) (d : TmDeframer) → IsBytes f.payload → DeframerOk d → DeframerOk (accept_vc f d)
unfolding accept_vc
accept_vc-DeframerOk f d bytes ok_d = record {
  eight = length-set d.vcs f.header.vcid _ ∙ ok_d.eight;
  channels = All-set VcOk d.vcs f.header.vcid _ ok_d.channels (
      extract-VcOk _ f.header.first_header_pointer f.payload _ _ bytes (
        note_vc_count-VcOk f.header.vc_frame_count _ _ (
          All-get_or VcOk d.vcs f.header.vcid fresh_vc ok_d.channels (empty-VcOk false fresh_vc))));
}

note_mc_count-DeframerOk :
    (count : ℕ) (d : TmDeframer) → DeframerOk d → DeframerOk (note_mc_count count d)
unfolding note_mc_count
note_mc_count-DeframerOk count d h = elim (Bool-cases (is_gap d.last_mc count)) [
  | inl gap ↦ rw gap h
  | inr same ↦ rw same h
]

accept-DeframerOk :
    (d : TmDeframer) (f : TmFrame) → IsBytes f.payload → DeframerOk d → DeframerOk (accept d f)
unfolding accept
accept-DeframerOk d f bytes h =
    let d' = note_mc_count f.header.mc_frame_count d in
    let h' = note_mc_count-DeframerOk f.header.mc_frame_count d h in
    elim (Bool-cases (is_other_spacecraft d.spacecraft_id f.header.spacecraft_id)) [
      | inl other ↦ rw other h
      | inr ours ↦ elim (Bool-cases (is_filtered d'.virtual_channels f.header.vcid)) [
        | inl filtered ↦ rw (ours, filtered) h'
        | inr wanted ↦ rw (ours, wanted) (accept_vc-DeframerOk f d' bytes h')
      ]
    ]

settle-DeframerOk :
    (d : TmDeframer) (frame : Bytes) (has_fecf : Bool) (r : Result FrameError TmFrame)
    → IsBytes frame
    → parse_tm_frame frame has_fecf ≡ r
    → DeframerOk d
    → DeframerOk (settle d r).0
unfolding settle
settle-DeframerOk d frame has_fecf (ok f) bytes e h =
    let a = parse_tm_frame-IsAccepted frame has_fecf e in
    accept-DeframerOk d f
      (subst IsBytes (sym a.payload_is)
        (All-take IsByte (a.end - a.start) _ (All-drop IsByte a.start frame bytes)))
      h
settle-DeframerOk d frame has_fecf (err (FrameError.fecf_mismatch _ _)) bytes e h = h
settle-DeframerOk d frame has_fecf (err (FrameError.too_short _)) bytes e h = h
settle-DeframerOk d frame has_fecf (err (FrameError.not_tm _)) bytes e h = h
settle-DeframerOk d frame has_fecf (err FrameError.not_packet_data) bytes e h = h
settle-DeframerOk d frame has_fecf (err (FrameError.bad_secondary_header _)) bytes e h = h

derandomized-IsBytes :
    (b : Bool) (raw : Bytes) → IsBytes raw → IsBytes (if b then ccsds_randomize raw else raw)
derandomized-IsBytes true raw h = ccsds_randomize-IsBytes raw h
derandomized-IsBytes false raw h = h

pub handle_frame-DeframerOk :
    (d : TmDeframer) (raw : Bytes) → IsBytes raw → DeframerOk d → DeframerOk (handle_frame d raw).0
unfolding handle_frame
handle_frame-DeframerOk d raw bytes h = ground (
  arith,
  settle-DeframerOk d (if d.derandomize then ccsds_randomize raw else raw) d.fecf _
      (derandomized-IsBytes d.derandomize raw bytes) refl h,
)

pub fresh-ChannelsOk : ChannelsOk (replicate 8 fresh_vc)
fresh-ChannelsOk = record {
  eight = refl;
  channels = All-replicate VcOk 8 fresh_vc (empty-VcOk false fresh_vc);
}

-- A channel never buffers as much as the largest Space Packet, 65542 octets.
pub VcOk-length : (vc : VcState) → VcOk vc → length vc.pending < 65542
VcOk-length vc v =
    let hi = All-get_or IsByte vc.pending 4 0 v.octets (omega arith) in
    let lo = All-get_or IsByte vc.pending 5 0 v.octets (omega arith) in
    omega (arith, hi, lo, v.partial)
