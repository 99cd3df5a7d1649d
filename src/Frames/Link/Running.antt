-- ===== src/Frames/Link/Running.antt =====
-- Sessions of a framer and a deframer on all eight channels.
use chronus_gateway.Prelude.{
  ℕ, ◌%◌, ◌^◌, ◌<◌, ◌≤◌, ◌≡◌, ◌≢◌, refl, ap, sym, ◌∙◌, subst, Bool, true, false, List, [], ◌∷◌,
  ◌++◌, ◌==◌, All, arith, append_assoc, append-nil,
}
use native.Mathlib.Decide.{ℕ_discrete}
use chronus_gateway.Words.{Bytes}
use chronus_gateway.Frames.Deframer.{
  TmDeframer, FramingConfig, ExtractedPacket, EmitCtx, packet_apid, idle_apid,
}
use chronus_gateway.Frames.Deframer
use chronus_gateway.Frames.Deframer.Drain.{IsPacket}
use chronus_gateway.Frames.Builder.{
  TmFrameBuilder, builder_vc_of, data_field_len, with_fecf, pack, flush,
}
use chronus_gateway.Frames.Builder
use chronus_gateway.Frames.Link.State.{InStep, Matches, SameSettings, Delivers}
use chronus_gateway.Frames.Link.Compose.{data_field_len-same}
use chronus_gateway.Frames.Link.RoundTrip.{pack-Moved}
use chronus_gateway.Frames.Link.Flush.{flush-Finished}
use chronus_gateway.Frames.Link.Fresh.{new-InStep}
use chronus_gateway.Frames.Link.Traffic.{
  of_channel, real, Op, packs, flushes, transmit, transmit_all, packed_by, packed_on, AllPackets,
}
use chronus_gateway.Frames.Link.Session.{
  Channel, of_channel-Delivers, Channel-other, Channel-packs, Channel-flushes,
}

record Running (s : TmFrameBuilder × TmDeframer) (sent : ℕ → List Bytes) : Type 0 where
  room : 6 ≤ data_field_len s.0
  channels : (j : ℕ) → j < 8 → Channel s.0 s.1 j (sent j)

module _ (s : TmFrameBuilder × TmDeframer) (sent : ℕ → List Bytes) (r : Running s sent)
    (vcid : ℕ) where
  abbrev at : ℕ
  at = vcid % 2 ^ 3

  at-lt : at < 8
  at-lt = omega arith

  own : (new : List Bytes) → packed_by at (packs vcid new) ≡ new
  own new = let same : (at == at) ≡ true = ground arith in rw same

  foreign : (new : List Bytes) (j : ℕ) → at ≢ j → sent j ++ packed_by j (packs vcid new) ≡ sent j
  foreign new j ne =
      let other : (at == j) ≡ false = ground (arith, ne) in rw other (append-nil (sent j))

  -- An operation on one channel, from what it does there.
  spread :
      (s' : TmFrameBuilder × TmDeframer) (sent' : ℕ → List Bytes) {done left : List Bytes}
      → SameSettings s.0 s'.0
      → ((j : ℕ) → at ≢ j → builder_vc_of s'.0 j ≡ builder_vc_of s.0 j)
      → Delivers s.0 at s.1 s'.1 done
      → InStep s'.0 s'.1 at left
      → Channel s'.0 s'.1 at (sent' at)
      → ((j : ℕ) → at ≢ j → sent' j ≡ sent j)
      → Running s' sent'
  spread s' sent' {done} same queues delivers l here elsewhere =
      let out = of_channel-Delivers s.0 s.1 s'.1 at done delivers in
      record {
        room = omega (arith, r.room, data_field_len-same same);
        channels = λ j h. elim (ℕ_discrete at j) [
          | yes e ↦ subst (λ k. Channel s'.0 s'.1 k (sent' k)) e here
          | no ne ↦ subst (Channel s'.0 s'.1 j) (sym (elsewhere j ne)) (
              Channel-other s.0 s'.0 s.1 s'.1 j l.framer same (queues j ne) (delivers.others j ne)
                delivers.config_same l.channels (out.1 j ne) (r.channels j h))
        ];
      }

  packs-Running :
      (new : List Bytes)
      → All IsPacket new
      → Running (transmit (packs vcid new) s) (λ j. sent j ++ packed_by j (packs vcid new))
  packs-Running new w =
      let s' = transmit (packs vcid new) s in
      let here = r.channels at at-lt in
      let m = pack-Moved s.0 s.1 vcid new w here.in_step in
      spread s' (λ j. sent j ++ packed_by j (packs vcid new)) m.settings m.queues m.delivers
        m.in_step
        (subst (λ ps. Channel s'.0 s'.1 at (sent at ++ ps)) (sym (own new))
          (Channel-packs s.0 s.1 vcid new w here))
        (foreign new)

  flushes-Running : Running (transmit (flushes vcid) s) (λ j. sent j ++ [])
  flushes-Running =
      let s' = transmit (flushes vcid) s in
      let here = r.channels at at-lt in
      let f = flush-Finished s.0 s.1 vcid r.room here.in_step in
      spread s' (λ j. sent j ++ []) f.settings f.queues f.delivers f.in_step
        (subst (Channel s'.0 s'.1 at) (sym (append-nil (sent at)))
          (Channel-flushes s.0 s.1 vcid r.room here).0)
        (λ j ne. append-nil (sent j))

transmit-Running :
    (op : Op) (s : TmFrameBuilder × TmDeframer) (sent : ℕ → List Bytes)
    → AllPackets op
    → Running s sent
    → Running (transmit op s) (λ j. sent j ++ packed_by j op)
transmit-Running (packs vcid new) s sent w r = packs-Running s sent r vcid new w
transmit-Running (flushes vcid) s sent w r = flushes-Running s sent r vcid

transmit_all-Running :
    (ops : List Op) (s : TmFrameBuilder × TmDeframer) (sent : ℕ → List Bytes)
    → All AllPackets ops
    → Running s sent
    → Running (transmit_all ops s) (λ j. sent j ++ packed_on j ops)
transmit_all-Running [] s sent w r = record {
  room = r.room;
  channels = λ j h. subst (Channel s.0 s.1 j) (sym (append-nil (sent j))) (r.channels j h);
}
transmit_all-Running (op ∷ ops) s sent w r =
    let n = transmit-Running op s sent w.0 r in
    let more = transmit_all-Running ops (transmit op s) (λ j. sent j ++ packed_by j op) w.1 n in
    record {
      room = more.room;
      channels = λ j h.
          subst (Channel (transmit_all (op ∷ ops) s).0 (transmit_all (op ∷ ops) s).1 j)
            (append_assoc (sent j) (packed_by j op) (packed_on j ops)) (more.channels j h);
    }

-- A new framer and a new deframer.
abbrev pub start : ℕ → ℕ → Bool → FramingConfig → TmFrameBuilder × TmDeframer
start id len fecf c = (with_fecf fecf (Builder.new id len), Deframer.new c)

module _ (id len : ℕ) (fecf : Bool) (c : FramingConfig) (ops : List Op)
    (room : 6 ≤ data_field_len (with_fecf fecf (Builder.new id len)))
    (m : (j : ℕ) → j < 8 → Matches c (with_fecf fecf (Builder.new id len)) j)
    (w : All AllPackets ops) where
  start-Running : Running (start id len fecf c) (λ _. [])
  start-Running = record {
    room = room;
    channels = λ j h. record {
      waiting = [];
      in_step = new-InStep id len fecf c j (m j h) h;
      in_order = refl;
    };
  }

  -- A new framer and a new deframer with the same settings, data fields of at least 6 octets, an
  -- error-free link and any session of packing and flushing on any channels: on every channel, the
  -- packets that the deframer has handed on, and behind them those still between the two ends, are
  -- in order exactly the packets packed on this channel, fillers excepted.
  pub transmit_all-Channel :
      (vcid : ℕ)
      → vcid < 8
      → Channel
          (transmit_all ops (start id len fecf c)).0
          (transmit_all ops (start id len fecf c)).1
          vcid
          (packed_on vcid ops)
  transmit_all-Channel vcid h =
      (transmit_all-Running ops (start id len fecf c) (λ _. []) w start-Running).channels vcid h

  -- A new framer and a new deframer with the same settings, data fields of at least 6 octets, an
  -- error-free link and any session of packing and flushing on any channels: once a channel is
  -- flushed, the deframer has handed on, in order, exactly the packets packed on this channel,
  -- fillers excepted.
  pub flush-of_channel :
      (vcid : ℕ)
      → of_channel
          (vcid % 2 ^ 3)
          (transmit (flushes vcid) (transmit_all ops (start id len fecf c))).1.sink.emitted
        ≡ real (packed_on (vcid % 2 ^ 3) ops)
  flush-of_channel vcid =
      let r = transmit_all-Running ops (start id len fecf c) (λ _. []) w start-Running in
      let s = transmit_all ops (start id len fecf c) in
      let (c', empty) =
        Channel-flushes s.0 s.1 vcid r.room (r.channels (vcid % 2 ^ 3) (omega arith)) in
      let es = of_channel (vcid % 2 ^ 3) (transmit (flushes vcid) s).1.sink.emitted in
      sym (append-nil es) ∙ ap (λ ps. es ++ real ps) (sym empty) ∙ c'.in_order
