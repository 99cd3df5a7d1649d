-- ===== src/Frames/Deframer/Gap.antt =====
-- `TmDeframer::accept` behind a gap in the counter of a virtual channel.
use chronus_gateway.Prelude.{
  concat, ℕ, ◌<◌, ◌≤◌, ◌≡◌, ◌≢◌, refl, ap, sym, ◌∙◌, subst, ◌⊎◌, inl, inr, Bool, true, false, some,
  List, [], ◌++◌, ◌==◌, leb, length, drop, All, get_or, arith, append-nil, Bool-cases,
}
use chronus_gateway.Words.{Bytes, wrapping_succ_u8}
use chronus_gateway.Frames.Parse.{TmFrame}
use chronus_gateway.Frames.Stats.{bump}
use chronus_gateway.Frames.Deframer.{
  Sink, VcState, EmitCtx, TmDeframer, fresh_vc, count_dropped, lose_sync, note_mc_count,
  finish_packet, extract, accept, fhp_idle, fhp_no_packet_start,
}
use chronus_gateway.Frames.Deframer.Drain.{IsPacket, IsPartial, IsBroken, deliver_all}
use chronus_gateway.Frames.Deframer.Drain.Total.{drain_packets-Drained}
use chronus_gateway.Frames.Deframer.Reassembly.{extracted, emitted-deliver_all}
use chronus_gateway.Frames.Deframer.Accept.{
  vc_of, ctx_of, IsWanted, Lands, note_mc_same, emitted-count_dropped, note_vc_count_gap,
  frame_counted, accept_vc-Lands, accept_by_vc,
}

-- What the data field of one frame, with its First Header Pointer, gives on its own: the packets
-- that start and end in it, and the buffer and the sync that it leaves.
pub data Restarts (fhp : ℕ) (payload : Bytes) : List Bytes → Bytes → Bool → Type 0 where
  no_start :
      (fhp ≡ fhp_idle) ⊎ (fhp ≡ fhp_no_packet_start) ⊎ (length payload ≤ fhp)
      → Restarts fhp payload [] [] false
  partial :
      {packets : List Bytes} {after : Bytes}
      → fhp < length payload
      → drop fhp payload ≡ concat packets ++ after
      → All IsPacket packets
      → IsPartial after
      → Restarts fhp payload packets after true
  broken :
      {packets : List Bytes} (after : Bytes)
      → fhp < length payload
      → drop fhp payload ≡ concat packets ++ after
      → All IsPacket packets
      → IsBroken after
      → Restarts fhp payload packets [] false

-- The step of a channel that has nothing buffered and is out of sync.
record Resumed (ctx : EmitCtx) (fhp : ℕ) (payload : Bytes) (vc : VcState) (s : Sink) : Type 0 where
  packets : List Bytes
  pending : Bytes
  sync : Bool
  vc' : VcState
  s' : Sink
  restarts : Restarts fhp payload packets pending sync
  step : extract ctx fhp payload vc s ≡ (vc', s')
  left : vc' ≡ record vc { pending = pending; in_sync = sync }
  emits : s'.emitted ≡ s.emitted ++ extracted ctx packets

module _ (ctx : EmitCtx) (fhp : ℕ) (payload : Bytes) (vc : VcState) (s : Sink)
    (sync : vc.in_sync ≡ false) (nothing : vc.pending ≡ []) where
  same_vc : vc ≡ record vc { pending = []; in_sync = false }
  same_vc =
      ap (λ p. record vc { pending = p }) nothing
      ∙ ap (λ b. record vc { pending = []; in_sync = b }) sync

  unstarted :
      (vc' : VcState) (s' : Sink)
      → (fhp ≡ fhp_idle) ⊎ (fhp ≡ fhp_no_packet_start) ⊎ (length payload ≤ fhp)
      → extract ctx fhp payload vc s ≡ (vc', s')
      → vc' ≡ record vc { pending = []; in_sync = false }
      → s'.emitted ≡ s.emitted
      → Resumed ctx fhp payload vc s
  unfolding extracted
  unstarted vc' s' why step left same = record {
    packets = [];
    pending = [];
    sync = false;
    vc' = vc';
    s' = s';
    restarts = no_start why;
    step = step;
    left = left;
    emits = same ∙ sym (append-nil s.emitted);
  }

  extract_idle : (fhp == fhp_idle) ≡ true → Resumed ctx fhp payload vc s
  unfolding extract
  extract_idle e =
      unstarted vc (record s { stats = record s.stats { frames_idle = bump s.stats.frames_idle } })
        (inl (ground arith)) (rw e refl) same_vc refl

  extract_outside :
      (fhp == fhp_idle) ≡ false
      → (fhp == fhp_no_packet_start) ≡ false
      → leb (length payload) fhp ≡ true
      → Resumed ctx fhp payload vc s
  unfolding extract lose_sync
  extract_outside i n l =
      unstarted (record vc { pending = []; in_sync = false }) (count_dropped vc.pending s)
        (inr (inr (ground arith))) (rw (i, n, l) refl) refl (emitted-count_dropped vc.pending s)

  extract_goes_on :
      (fhp == fhp_idle) ≡ false → (fhp == fhp_no_packet_start) ≡ true → Resumed ctx fhp payload vc s
  unfolding extract
  extract_goes_on i n =
      unstarted vc s (inr (inl (ground arith))) (rw (i, n, sync) refl) same_vc refl

  extract_starts :
      (fhp == fhp_idle) ≡ false
      → (fhp == fhp_no_packet_start) ≡ false
      → leb (length payload) fhp ≡ false
      → Resumed ctx fhp payload vc s
  unfolding extract finish_packet lose_sync
  extract_starts i n l =
      let inside : fhp < length payload = ground arith in
      let first : VcState = record vc { pending = drop fhp payload; in_sync = true } in
      let r = drain_packets-Drained ctx first s in
      elim r.result [
        | inl (after, drains) ↦ record {
          packets = r.packets;
          pending = r.tail;
          sync = true;
          vc' = record vc { pending = r.tail; in_sync = true };
          s' = deliver_all ctx r.packets s;
          restarts = partial inside r.splits r.whole after;
          step = rw (i, n, l, sync) drains;
          left = refl;
          emits = emitted-deliver_all ctx r.packets s;
        }
        | inr (after, drains) ↦ record {
          packets = r.packets;
          pending = [];
          sync = false;
          vc' = record vc { pending = []; in_sync = false };
          s' = count_dropped r.tail (deliver_all ctx r.packets s);
          restarts = broken r.tail inside r.splits r.whole after;
          step = rw (i, n, l, sync) drains;
          left = refl;
          emits =
              emitted-count_dropped r.tail (deliver_all ctx r.packets s)
              ∙ emitted-deliver_all ctx r.packets s;
        }
      ]

  extract-Resumed : Resumed ctx fhp payload vc s
  extract-Resumed = elim (Bool-cases (fhp == fhp_idle)) [
    | inl i ↦ extract_idle i
    | inr i ↦ elim (Bool-cases (fhp == fhp_no_packet_start)) [
      | inl n ↦ extract_goes_on i n
      | inr n ↦ elim (Bool-cases (leb (length payload) fhp)) [
        | inl l ↦ extract_outside i n l
        | inr l ↦ extract_starts i n l
      ]
    ]
  ]

-- A wanted frame behind a gap in its channel's counter, whatever its pointer and its data field:
-- nothing of what was buffered is used. The callback receives exactly the packets that start and
-- end in the frame; the channel keeps the start of a packet that the frame leaves, in sync, or, if
-- no packet starts in the frame or what is left is no packet, nothing, out of sync; it has the
-- frame's counter; and no other channel changes.
pub accept_gap :
    (d : TmDeframer) (f : TmFrame) (last : ℕ)
    → IsWanted d f
    → (vc_of d f.header.vcid).last_count ≡ some last
    → f.header.vc_frame_count ≢ wrapping_succ_u8 last
    → (packets : List Bytes) × (pending : Bytes) × (sync : Bool) × Restarts
        f.header.first_header_pointer f.payload packets pending sync
      × Lands d (accept d f) f packets pending sync
accept_gap d f last w was gap =
    let m = note_mc_count f.header.mc_frame_count d in
    let same = (note_mc_same f.header.mc_frame_count d).0 in
    let vc = ap (λ l. get_or l f.header.vcid fresh_vc) same in
    let (s, unchanged, noted) =
      note_vc_count_gap f.header.vc_frame_count last (vc_of m f.header.vcid) (frame_counted m)
        (ap (λ v. v.last_count) vc ∙ was) gap in
    let r =
      extract-Resumed (ctx_of f) f.header.first_header_pointer f.payload
        (record { pending = []; in_sync = false; last_count = some f.header.vc_frame_count }) s refl
        refl in
    (
      r.packets,
      r.pending,
      r.sync,
      r.restarts,
      accept_by_vc d f w (
          accept_vc-Lands m f r.packets r.pending
            (subst (λ l. f.header.vcid < length l) (sym same) w.exists) r.sync noted r.step r.left
            (r.emits ∙ ap (λ l. l ++ extracted (ctx_of f) r.packets) unchanged)),
    )
