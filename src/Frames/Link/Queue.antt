-- ===== src/Frames/Link/Queue.antt =====
-- `TmFrameBuilder::pack` up to its loop: packets put in the queue of a channel.
use chronus_gateway.Prelude.{
  concat, ℕ, ◌+◌, ◌-◌, ◌<◌, ◌≡◌, refl, ap, sym, ◌∙◌, subst, List, [], ◌∷◌, ◌++◌, length, All,
  All-append, arith, length-append, append_assoc, append-nil, get_or-set_self, length-set, set,
}
use chronus_gateway.Words.{Bytes}
use chronus_gateway.Frames.Deframer.{TmDeframer, VcState}
use chronus_gateway.Frames.Deframer.Drain.{IsPacket, IsPacket-length}
use chronus_gateway.Frames.Deframer.Accept.{vc_of}
use chronus_gateway.Frames.Builder.{
  TmFrameBuilder, BuilderVc, fresh_builder_vc, builder_vc_of, pop_before, queue_packets,
}
use chronus_gateway.Frames.Link.State.{Shared, InStep}
use chronus_gateway.Frames.Link.Split.{Begins}
use chronus_gateway.Frames.Link.Pointer.{offsets, offsets-append, pop_before-append}
use chronus_gateway.Frames.Link.Emit.{FramerOk}

concat-append : (ps qs : List Bytes) → concat (ps ++ qs) ≡ concat ps ++ concat qs
concat-append [] qs = refl
concat-append (p ∷ ps) qs =
    ap (◌++◌ p) (concat-append ps qs) ∙ sym (append_assoc p (concat ps) (concat qs))

Begins-append : (t p : Bytes) (ps : List Bytes) → IsPacket p → Begins t ps → Begins t (ps ++ p ∷ [])
Begins-append t p [] w b = omega (arith, ap length b, IsPacket-length p w)
Begins-append t p (q ∷ ps) w b = b

-- One more packet at the end of the queue.
abbrev queued_one : BuilderVc → Bytes → BuilderVc
queued_one at p = record at {
  starts = at.starts ++ (at.emitted + length at.queued) ∷ [];
  queued = at.queued ++ p;
}

aligned-one :
    (at : BuilderVc) (vc : VcState) (ps : List Bytes) (p : Bytes)
    → Shared at vc ps
    → pop_before at.emitted (at.starts ++ (at.emitted + length at.queued) ∷ [])
      ≡ pop_before at.emitted (offsets (at.emitted - length vc.pending) (ps ++ p ∷ []))
aligned-one at vc ps p s =
    let e = at.emitted - length vc.pending in
    let end = at.emitted + length at.queued in
    let same : e + length (concat ps) ≡ end =
      omega (arith, s.sent, ap length s.row, length-append vc.pending at.queued) in
    pop_before-append at.emitted at.starts (end ∷ [])
    ∙ ap (λ ss. pop_before at.emitted (ss ++ end ∷ [])) s.aligned
    ∙ sym (pop_before-append at.emitted (offsets e ps) (end ∷ []))
    ∙ ap (λ k. pop_before at.emitted (offsets e ps ++ k ∷ [])) (sym same)
    ∙ ap (pop_before at.emitted) (sym (offsets-append e ps (p ∷ [])))

Shared-one :
    (at : BuilderVc) (vc : VcState) (ps : List Bytes) (p : Bytes)
    → IsPacket p
    → Shared at vc ps
    → Shared (queued_one at p) vc (ps ++ p ∷ [])
Shared-one at vc ps p w s = record {
  count = s.count;
  awaits = s.awaits;
  packets = All-append IsPacket ps (p ∷ []) s.packets (w, tt);
  row =
      sym (append_assoc vc.pending at.queued p)
      ∙ ap (λ x. x ++ p) s.row
      ∙ ap (◌++◌ (concat ps)) (sym (append-nil p))
      ∙ sym (concat-append ps (p ∷ []));
  begins = Begins-append vc.pending p ps w s.begins;
  sent = s.sent;
  aligned = aligned-one at vc ps p s;
}

Shared-queue_packets :
    (at : BuilderVc) (vc : VcState) (ps new : List Bytes)
    → All IsPacket new
    → Shared at vc ps
    → Shared (queue_packets new at) vc (ps ++ new)
unfolding queue_packets
Shared-queue_packets at vc ps [] w s = subst (Shared at vc) (sym (append-nil ps)) s
Shared-queue_packets at vc ps (p ∷ new) w s =
    subst (Shared (queue_packets new (queued_one at p)) vc) (append_assoc ps (p ∷ []) new) (
      Shared-queue_packets (queued_one at p) vc (ps ++ p ∷ []) new w.1
        (Shared-one at vc ps p w.0 s))

pub queued-queue_packets :
    (at : BuilderVc) (new : List Bytes)
    → length (queue_packets new at).queued ≡ length at.queued + length (concat new)
unfolding queue_packets
queued-queue_packets at [] = omega arith
queued-queue_packets at (p ∷ new) = omega (
  arith,
  queued-queue_packets (queued_one at p) new,
  length-append at.queued p,
  length-append p (concat new),
)

-- The framer with the packets in the queue of the channel.
abbrev pub with_queued : ℕ → List Bytes → TmFrameBuilder → TmFrameBuilder
with_queued vcid new b = record b { vc = set b.vc vcid (queue_packets new (builder_vc_of b vcid)) }

pub with_queued-vc :
    (vcid : ℕ) (new : List Bytes) (b : TmFrameBuilder)
    → FramerOk b
    → vcid < 8
    → builder_vc_of (with_queued vcid new b) vcid ≡ queue_packets new (builder_vc_of b vcid)
with_queued-vc vcid new b v h =
    get_or-set_self b.vc vcid _ fresh_builder_vc (subst (λ n. vcid < n) (sym v.channels) h)

pub InStep-with_queued :
    (b : TmFrameBuilder) (d : TmDeframer) (vcid : ℕ) (ps new : List Bytes)
    → All IsPacket new
    → InStep b d vcid ps
    → InStep (with_queued vcid new b) d vcid (ps ++ new)
InStep-with_queued b d vcid ps new w l =
    let v = l.framer in
    let m = l.matches in
    record {
      framer = record {
        spacecraft = v.spacecraft;
        shortest = v.shortest;
        longest = v.longest;
        count = v.count;
        channels = length-set b.vc vcid _ ∙ v.channels;
      };
      matches = record {
        checksum = m.checksum;
        size = m.size;
        spacecraft = m.spacecraft;
        wanted = m.wanted;
      };
      channels = l.channels;
      channel = l.channel;
      shared =
          subst (λ at. Shared at (vc_of d vcid) (ps ++ new))
            (sym (with_queued-vc vcid new b v l.channel))
            (Shared-queue_packets (builder_vc_of b vcid) (vc_of d vcid) ps new w l.shared);
    }
