-- ===== src/Frames/Link/Pack.antt =====
-- `TmFrameBuilder::pack` into the deframer: every full frame of the queue crosses the link.
use chronus_gateway.Prelude.{
  ℕ, zero, suc, ◌-◌, ◌%◌, ◌<◌, ◌≤◌, ◌≡◌, refl, ap, sym, ◌∙◌, subst, List, [], ◌∷◌, length, arith,
  length-drop, lt→ltb, le→not_ltb,
}
use native.Mathlib.Nat.{mod-eq-sub-mod, mod-eq_of_lt}
use native.Mathlib.Decide.{dec_lt}
use chronus_gateway.Words.{Bytes}
use chronus_gateway.Frames.Deframer.{TmDeframer}
use chronus_gateway.Frames.Builder.{
  TmFrameBuilder, builder_vc_of, data_field_len, emit_frame, emit_full,
}
use chronus_gateway.Frames.Link.State.{InStep, Moved, receive}
use chronus_gateway.Frames.Link.Emit.{data_field_len-le, emit_frame-vc}
use chronus_gateway.Frames.Link.Step.{step}
use chronus_gateway.Frames.Link.Compose.{Moved-none, Moved-trans, receive_all, data_field_len-same}

-- The loop of `pack` ends with less than a data field in the queue; a whole number of data fields
-- leaves none.
pub record Packed (b b' : TmFrameBuilder) (d : TmDeframer) (fs : List Bytes) (vcid : ℕ)
    (ps : List Bytes) : Type 0 where
  pub moved : Moved b b' d (receive_all d fs) vcid ps
  pub short : length (builder_vc_of b' vcid).queued < data_field_len b
  pub whole :
      length (builder_vc_of b vcid).queued % data_field_len b ≡ 0
      → length (builder_vc_of b' vcid).queued ≡ 0

emit_full-more :
    (fuel vcid : ℕ) (b : TmFrameBuilder)
    → data_field_len b ≤ length (builder_vc_of b vcid).queued
    → emit_full (suc fuel) vcid b ≡ (
      (emit_full fuel vcid (emit_frame vcid b).0).0,
      (emit_frame vcid b).1 ∷ (emit_full fuel vcid (emit_frame vcid b).0).1,
    )
unfolding emit_full
emit_full-more fuel vcid b full = rw (le→not_ltb _ _ full)

emit_full-done :
    (fuel vcid : ℕ) (b : TmFrameBuilder)
    → length (builder_vc_of b vcid).queued < data_field_len b
    → emit_full fuel vcid b ≡ (b, [])
unfolding emit_full
emit_full-done zero vcid b short = refl
emit_full-done (suc fuel) vcid b short = rw (lt→ltb _ _ short)

-- One more full frame before the rest of the loop.
Packed-step :
    (b b' : TmFrameBuilder) (d : TmDeframer) (fs : List Bytes) (vcid : ℕ) {ps : List Bytes}
    (l : InStep b d vcid ps) (full : data_field_len b ≤ length (builder_vc_of b vcid).queued)
    → Packed
        (emit_frame vcid b).0
        b'
        (receive d (emit_frame vcid b).1)
        fs
        vcid
        (step b d vcid l full).1.left
    → Packed b b' d ((emit_frame vcid b).1 ∷ fs) vcid ps
Packed-step b b' d fs vcid l full r =
    let at = builder_vc_of b vcid in
    let n = data_field_len b in
    let m = (step b d vcid l full).1 in
    let n_same = data_field_len-same m.settings in
    let queued : length (builder_vc_of (emit_frame vcid b).0 vcid).queued ≡ length at.queued - n =
      ap (λ vc. length vc.queued) (emit_frame-vc b vcid l.framer l.channel)
      ∙ length-drop n at.queued in
    record {
      moved = Moved-trans m r.moved;
      short = omega (arith, r.short, n_same);
      whole = λ e. r.whole (
          ap (λ q. q % data_field_len (emit_frame vcid b).0) queued
          ∙ ap (λ k. (length at.queued - n) % k) n_same
          ∙ sym (mod-eq-sub-mod full)
          ∙ e);
    }

Packed-done :
    (fuel : ℕ) (b : TmFrameBuilder) (d : TmDeframer) (vcid : ℕ) {ps : List Bytes}
    → InStep b d vcid ps
    → length (builder_vc_of b vcid).queued < data_field_len b
    → Packed b (emit_full fuel vcid b).0 d (emit_full fuel vcid b).1 vcid ps
Packed-done fuel b d vcid {ps} l short =
    subst (λ r. Packed b r.0 d r.1 vcid ps) (sym (emit_full-done fuel vcid b short))
      (record { moved = Moved-none l; short = short; whole = λ e. sym (mod-eq_of_lt short) ∙ e })

-- As much fuel as there are octets in the queue is enough.
pub emit_full-Packed :
    (fuel : ℕ) (b : TmFrameBuilder) (d : TmDeframer) (vcid : ℕ) {ps : List Bytes}
    → InStep b d vcid ps
    → length (builder_vc_of b vcid).queued ≤ fuel
    → Packed b (emit_full fuel vcid b).0 d (emit_full fuel vcid b).1 vcid ps
emit_full-Packed zero b d vcid l enough =
    Packed-done zero b d vcid l (omega (arith, data_field_len-le b l.framer))
emit_full-Packed (suc fuel) b d vcid {ps} l enough =
    elim (dec_lt (length (builder_vc_of b vcid).queued) (data_field_len b)) [
      | yes short ↦ Packed-done (suc fuel) b d vcid l short
      | no long ↦
          let full : data_field_len b ≤ length (builder_vc_of b vcid).queued = omega arith in
          let b' = (emit_frame vcid b).0 in
          let queued = ap (λ vc. length vc.queued) (emit_frame-vc b vcid l.framer l.channel) in
          let size = length-drop (data_field_len b) (builder_vc_of b vcid).queued in
          let room = data_field_len-le b l.framer in
          subst (λ r. Packed b r.0 d r.1 vcid ps) (sym (emit_full-more fuel vcid b full))
            (Packed-step b (emit_full fuel vcid b').0 d (emit_full fuel vcid b').1 vcid l full (
              emit_full-Packed fuel b' (receive d (emit_frame vcid b).1) vcid
                (step b d vcid l full).1.in_step (omega (arith, queued, size, room))))
    ]
