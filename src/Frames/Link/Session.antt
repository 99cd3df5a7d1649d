-- ===== src/Frames/Link/Session.antt =====
-- What one operation of the framer does on each channel of a link.
use chronus_gateway.Prelude.{
  ℕ, ◌%◌, ◌^◌, ◌≤◌, ◌≡◌, ◌≢◌, refl, ap, sym, ◌∙◌, subst, List, [], ◌++◌, length, All, arith,
  append_assoc, append-nil,
}
use chronus_gateway.Words.{Bytes}
use chronus_gateway.Frames.Deframer.{TmDeframer}
use chronus_gateway.Frames.Deframer.Drain.{IsPacket}
use chronus_gateway.Frames.Deframer.Accept.{vc_of}
use chronus_gateway.Frames.Deframer.Reassembly.{extracted}
use chronus_gateway.Frames.Builder.{TmFrameBuilder, builder_vc_of, data_field_len, pack, flush}
use chronus_gateway.Frames.Link.State.{
  InStep, Matches, Matches-same, SameSettings, Shared, Delivers, ctx,
}
use chronus_gateway.Frames.Link.Emit.{FramerOk}
use chronus_gateway.Frames.Link.Compose.{receive_all}
use chronus_gateway.Frames.Link.RoundTrip.{pack-Moved}
use chronus_gateway.Frames.Link.Flush.{flush-Finished}
use chronus_gateway.Frames.Link.Traffic.{
  of_channel, real, real-append, of_channel-append, of_channel-own, of_channel-foreign,
}

-- What is known of channel `vcid` behind a session that packed `sent` on it: both ends agree, and
-- what came out and what is still between the two ends are together what was packed.
pub record Channel (b : TmFrameBuilder) (d : TmDeframer) (vcid : ℕ) (sent : List Bytes)
    : Type 0 where
  pub waiting : List Bytes
  pub in_step : InStep b d vcid waiting
  pub in_order : of_channel vcid d.sink.emitted ++ real waiting ≡ real sent

-- What `Delivers` says of the packets of one channel.
pub of_channel-Delivers :
    (b : TmFrameBuilder) (d d' : TmDeframer) (vcid : ℕ) (done : List Bytes)
    → Delivers b vcid d d' done
    → (of_channel vcid d'.sink.emitted ≡ of_channel vcid d.sink.emitted ++ real done)
      × ((j : ℕ) → vcid ≢ j → of_channel j d'.sink.emitted ≡ of_channel j d.sink.emitted)
of_channel-Delivers b d d' vcid done v =
    let more = extracted (ctx b vcid) done in
    let at : (j : ℕ)
        → of_channel j d'.sink.emitted ≡ of_channel j d.sink.emitted ++ of_channel j more =
      λ j. ap (of_channel j) v.emits ∙ of_channel-append j d.sink.emitted more in
    (
      at vcid
          ∙ ap (◌++◌ (of_channel vcid d.sink.emitted))
              (of_channel-own (ctx b vcid) vcid (ground arith) done),
      λ j ne.
          at j
          ∙ ap (◌++◌ (of_channel j d.sink.emitted))
              (of_channel-foreign (ctx b vcid) j (ground (arith, ne)) done)
          ∙ append-nil (of_channel j d.sink.emitted),
    )

-- A channel that an operation does not touch stays as it is.
pub Channel-other :
    (b b' : TmFrameBuilder) (d d' : TmDeframer) (j : ℕ) {sent : List Bytes}
    → FramerOk b'
    → SameSettings b b'
    → builder_vc_of b' j ≡ builder_vc_of b j
    → vc_of d' j ≡ vc_of d j
    → d'.config ≡ d.config
    → length d'.vcs ≡ 8
    → of_channel j d'.sink.emitted ≡ of_channel j d.sink.emitted
    → Channel b d j sent
    → Channel b' d' j sent
Channel-other b b' d d' j v s at vc config eight same c = record {
  waiting = c.waiting;
  in_step = record {
    framer = v;
    matches = subst (λ k. Matches k b' j) (sym config) (Matches-same s c.in_step.matches);
    channels = eight;
    channel = c.in_step.channel;
    shared =
        subst (λ a. Shared a (vc_of d' j) c.waiting) (sym at)
          (subst (λ z. Shared (builder_vc_of b j) z c.waiting) (sym vc) c.in_step.shared);
  };
  in_order = ap (λ es. es ++ real c.waiting) same ∙ c.in_order;
}

-- `pack` on the channel itself.
pub Channel-packs :
    (b : TmFrameBuilder) (d : TmDeframer) (vcid : ℕ) (new : List Bytes) {sent : List Bytes}
    → All IsPacket new
    → Channel b d (vcid % 2 ^ 3) sent
    → Channel (pack vcid new b).0 (receive_all d (pack vcid new b).1) (vcid % 2 ^ 3) (sent ++ new)
Channel-packs b d vcid new {sent} w c =
    let m = pack-Moved b d vcid new w c.in_step in
    let v = vcid % 2 ^ 3 in
    let out = of_channel v d.sink.emitted in
    record {
      waiting = m.left;
      in_step = m.in_step;
      in_order =
          ap (λ es. es ++ real m.left)
            (of_channel-Delivers b d (receive_all d (pack vcid new b).1) v m.done m.delivers).0
          ∙ append_assoc out (real m.done) (real m.left)
          ∙ ap (◌++◌ out)
              (sym (real-append m.done m.left) ∙ ap real (sym m.order) ∙ real-append c.waiting new)
          ∙ sym (append_assoc out (real c.waiting) (real new))
          ∙ ap (λ es. es ++ real new) c.in_order
          ∙ sym (real-append sent new);
    }

-- `flush` on the channel itself.
pub Channel-flushes :
    (b : TmFrameBuilder) (d : TmDeframer) (vcid : ℕ) {sent : List Bytes}
    → 6 ≤ data_field_len b
    → Channel b d (vcid % 2 ^ 3) sent
    → (c : Channel (flush vcid b).0 (receive_all d (flush vcid b).1) (vcid % 2 ^ 3) sent)
      × (c.waiting ≡ [])
Channel-flushes b d vcid {sent} room c =
    let f = flush-Finished b d vcid room c.in_step in
    let v = vcid % 2 ^ 3 in
    (
      record {
        waiting = [];
        in_step = f.in_step;
        in_order =
            append-nil (of_channel v (receive_all d (flush vcid b).1).sink.emitted)
            ∙ (of_channel-Delivers b d (receive_all d (flush vcid b).1) v c.waiting f.delivers).0
            ∙ c.in_order;
      },
      refl,
    )
