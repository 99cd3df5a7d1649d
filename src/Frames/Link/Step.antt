-- ===== src/Frames/Link/Step.antt =====
-- One frame from `emit_frame` to `handle_frame`.
use chronus_gateway.Prelude.{
  concat, ℕ, ◌+◌, ◌-◌, ◌^◌, ◌<◌, ◌≤◌, ◌≡◌, refl, ap, sym, ◌∙◌, subst, true, none, some, List, ◌++◌,
  length, take, drop, All, All-append_left, All-append_right, arith, length-append, length-take,
  inl, inr,
}
use chronus_gateway.Words.{Bytes}
use chronus_gateway.Frames.Parse.{TmFrame, parse_tm_frame}
use chronus_gateway.Frames.Deframer.{TmDeframer, is_wrong_length, handle_frame, accept}
use chronus_gateway.Frames.Deframer.Drain.{IsPacket}
use chronus_gateway.Frames.Deframer.Reassembly.{Carries, continues, starts}
use chronus_gateway.Frames.Deframer.Accept.{IsWanted, Outcome, vc_of, accept_in_sync}
use chronus_gateway.Frames.Builder.{
  TmFrameBuilder, builder_vc_of, data_field_len, frame_header, pop_before, pointer_at, frame,
  emit_frame,
}
use chronus_gateway.Frames.Link.State.{
  InStep, Shared, Matches, Matches-same, SameSettings, Moved, receive,
}
use chronus_gateway.Frames.Link.Pointer.{offsets, Sent, pop_before-offsets, pop_before_twice}
use chronus_gateway.Frames.Link.Field.{field}
use chronus_gateway.Frames.Link.Frame.{accept_first, accept-config, on_air, handle_frame-accept}
use chronus_gateway.Frames.Link.Emit.{
  pointer_of, next_vc, data_field_len-le, emit_frame-vc, emit_frame-other, emit_frame-FramerOk,
  emit_frame-frame,
}

Carries-pointer :
    {before payload after : Bytes} {fhp : ℕ} {packets : List Bytes}
    → Carries before fhp payload packets after
    → fhp < 2 ^ 11
Carries-pointer (continues e _ _ _) = omega (arith, e)
Carries-pointer (starts _ _ _ e _ _ _ _ _ _) = omega arith

-- The field that the framer sends next.
abbrev Next : TmFrameBuilder → TmDeframer → ℕ → List Bytes → Type 0
Next b d vcid ps =
    let vc = builder_vc_of b vcid in
    Sent (vc_of d vcid).pending (pointer_of b vcid) (take (data_field_len b) vc.queued)
      (drop (data_field_len b) vc.queued) ps

abbrev frame_read : TmFrameBuilder → ℕ → TmFrame
frame_read b vcid = record {
  header = frame_header b vcid (pointer_of b vcid);
  payload = take (data_field_len b) (builder_vc_of b vcid).queued;
  ocf = none;
}

emit_frame-same : (b : TmFrameBuilder) (vcid : ℕ) → SameSettings b (emit_frame vcid b).0
unfolding emit_frame frame
emit_frame-same b vcid = record { spacecraft = refl; checksum = refl; frame_length = refl }

module _ (b : TmFrameBuilder) (d : TmDeframer) (vcid : ℕ) {ps : List Bytes} (l : InStep b d vcid ps)
    (full : data_field_len b ≤ length (builder_vc_of b vcid).queued) where
  next : Next b d vcid ps
  next =
      let vc = builder_vc_of b vcid in
      let n = data_field_len b in
      let room = data_field_len-le b l.framer in
      subst
        (λ ss.
          Sent (vc_of d vcid).pending (pointer_at vc.emitted n ss) (take n vc.queued)
            (drop n vc.queued) ps)
        (sym l.aligned)
        (field vc.emitted n (vc_of d vcid).pending vc.queued ps l.packets l.begins l.row room.0 full
          (omega (arith, room.2)) l.sent)

  frame_read-IsWanted : IsWanted d (frame_read b vcid)
  frame_read-IsWanted = record {
    spacecraft = l.matches.spacecraft;
    channel = l.matches.wanted;
    exists = subst (λ n. vcid < n) (sym l.channels) l.channel;
  }

  accepted :
      (s : Next b d vcid ps)
      → Outcome d (accept d (frame_read b vcid)) (frame_read b vcid) s.done s.rest
  accepted s = elim l.awaits [
    | inl (sync, last, was, follows) ↦
        accept_in_sync d (frame_read b vcid) last frame_read-IsWanted sync was follows s.carries
    | inr (out, was, empty) ↦
        let room = data_field_len-le b l.framer in
        let here = s.aligned empty in
        let size : 0 < length (frame_read b vcid).payload =
          omega (arith, room.0, length-take (data_field_len b) (builder_vc_of b vcid).queued) in
        accept_first d (frame_read b vcid) s.done s.rest frame_read-IsWanted out was
          (omega (arith, here)) (omega (arith, here))
          (All-append_left IsPacket s.done s.left (subst (All IsPacket) s.packets l.packets))
          (ap (λ n. drop n (frame_read b vcid).payload) here
            ∙ ap (λ t. t ++ (frame_read b vcid).payload) (sym empty)
            ∙ s.before)
          s.partial
  ]

  received :
      Next b d vcid ps
      → handle_frame d (on_air d (emit_frame vcid b).1) ≡ (accept d (frame_read b vcid), true)
  received s =
      let (parsed, size) =
        emit_frame-frame b vcid l.framer l.channel l.count (Carries-pointer s.carries) full in
      handle_frame-accept d (emit_frame vcid b).1 (frame_read b vcid)
        (omega (arith, size, l.framer.shortest)) (omega (arith, size, l.framer.longest))
        (ap (is_wrong_length d.frame_length) size ∙ l.matches.size)
        (ap (parse_tm_frame (emit_frame vcid b).1) l.matches.checksum ∙ parsed)

  -- The channel behind the frame.
  Shared-Next :
      (s : Next b d vcid ps)
      → Shared
          (next_vc b vcid)
          (record {
            pending = s.rest;
            in_sync = true;
            last_count = some (builder_vc_of b vcid).frame_count;
          })
          s.left
  Shared-Next s =
      let at = builder_vc_of b vcid in
      let n = data_field_len b in
      let old = (vc_of d vcid).pending in
      let size : length (concat s.done) + length s.rest ≡ length old + n = omega (
        arith,
        ap length s.before,
        length-append old (take n at.queued),
        length-append (concat s.done) s.rest,
        length-take n at.queued,
      ) in
      let both = subst (All IsPacket) s.packets l.packets in
      let e = at.emitted - length old in
      let whole_done = All-append_left IsPacket s.done s.left both in
      let lo = at.emitted + n in
      let le : at.emitted ≤ lo = omega arith in
      record {
        count = omega arith;
        awaits = inl (refl, at.frame_count, refl, refl);
        packets = All-append_right IsPacket s.done s.left both;
        row = s.behind;
        begins = s.begins;
        sent = omega (arith, l.sent);
        aligned =
            ap (pop_before lo) l.aligned
            ∙ pop_before_twice at.emitted lo (offsets e ps) le
            ∙ ap (λ qs. pop_before lo (offsets e qs)) s.packets
            ∙ pop_before-offsets lo e s.done s.left whole_done (omega (arith, l.sent))
            ∙ ap (λ k. pop_before lo (offsets k s.left)) (omega (arith, l.sent));
      }

  moved : Next b d vcid ps → Moved b (emit_frame vcid b).0 d (accept d (frame_read b vcid)) vcid ps
  moved s =
      let o = accepted s in
      let same = accept-config d (frame_read b vcid) frame_read-IsWanted in
      let d' = accept d (frame_read b vcid) in
      let b' = (emit_frame vcid b).0 in
      record {
        done = s.done;
        left = s.left;
        order = s.packets;
        in_step = record {
          framer = emit_frame-FramerOk b vcid l.framer l.channel;
          matches =
              subst (λ c. Matches c b' vcid) (sym same.0)
                (Matches-same (emit_frame-same b vcid) l.matches);
          channels = same.1 ∙ l.channels;
          channel = l.channel;
          shared =
              subst (λ at. Shared at (vc_of d' vcid) s.left)
                (sym (emit_frame-vc b vcid l.framer l.channel))
                (subst (λ vc. Shared (next_vc b vcid) vc s.left) (sym o.keeps) (Shared-Next s));
        };
        settings = emit_frame-same b vcid;
        queues = emit_frame-other b vcid l.framer l.channel;
        delivers = record { emits = o.emits; config_same = same.0; others = o.others };
      }

  -- One frame over the link: the frame is accepted, exactly the packets that it finishes come out,
  -- and both ends agree on what is left.
  pub step :
      ((handle_frame d (on_air d (emit_frame vcid b).1)).1 ≡ true)
      × Moved b (emit_frame vcid b).0 d (receive d (emit_frame vcid b).1) vcid ps
  step =
      let r = received next in
      (
        ap (λ t. t.1) r,
        subst (λ d'. Moved b (emit_frame vcid b).0 d d' vcid ps) (sym (ap (λ t. t.0) r))
            (moved next),
      )
