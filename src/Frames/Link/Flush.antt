-- ===== src/Frames/Link/Flush.antt =====
-- `TmFrameBuilder::flush` at one end of a link: the filler empties the queue.
use chronus_gateway.Prelude.{
  concat, ℕ, ◌+◌, ◌-◌, ◌%◌, ◌^◌, ◌<◌, ◌≤◌, ◌≡◌, ◌≢◌, refl, ap, sym, ◌∙◌, subst, true, false, List,
  [], ◌∷◌, ◌++◌, length, ltb, ◌==◌, if◌then◌else◌, arith, length-append, append-nil, length-eq-zero,
  lt→ltb, le→not_ltb,
}
use native.Mathlib.Nat.{mod-add-mod, mod_self, add-mod_right, mod-lt}
use native.Mathlib.Decide.{dec_lt, ℕ_discrete}
use chronus_gateway.Words.{Bytes}
use chronus_gateway.Frames.Deframer.{TmDeframer, packet_apid, idle_apid, packet_header_len}
use chronus_gateway.Frames.Deframer.Accept.{vc_of}
use chronus_gateway.Frames.Deframer.Reassembly.{extracted}
use chronus_gateway.Frames.Builder.{
  TmFrameBuilder, builder_vc_of, data_field_len, idle_packet, pack, flush,
}
use chronus_gateway.Frames.Builder.Encode.{idle_packet-IsPacket}
use chronus_gateway.Frames.Link.State.{InStep, SameSettings, Delivers, Moved, ctx}
use chronus_gateway.Frames.Link.Emit.{data_field_len-le}
use chronus_gateway.Frames.Link.Queue.{with_queued, with_queued-vc, queued-queue_packets}
use chronus_gateway.Frames.Link.Compose.{extracted-append, receive_all, Moved-none}
use chronus_gateway.Frames.Link.Split.{Begins}
use chronus_gateway.Frames.Link.RoundTrip.{pack-Moved, pack-Packed}

-- With an empty queue nothing is left between the two ends.
no_packets_left : (t : Bytes) (left : List Bytes) → Begins t left → t ≡ concat left → left ≡ []
no_packets_left t [] b e = refl
no_packets_left t (p ∷ left) b e =
    absurd (omega (arith, ap length e, length-append p (concat left)))

InStep-empty :
    (b : TmFrameBuilder) (d : TmDeframer) (vcid : ℕ) {left : List Bytes}
    → InStep b d vcid left
    → length (builder_vc_of b vcid).queued ≡ 0
    → left ≡ []
InStep-empty b d vcid {left} l empty =
    let t = (vc_of d vcid).pending in
    let gone = length-eq-zero (builder_vc_of b vcid).queued empty in
    no_packets_left t left l.begins (sym (append-nil t) ∙ ap (◌++◌ t) (sym gone) ∙ l.row)

-- The filler ends on the border of a data field.
fills : (q n : ℕ) → 0 < n → (q + (n - q % n)) % n ≡ 0
fills q n h =
    let below = mod-lt q h in
    sym (mod-add-mod q n (n - q % n)) ∙ ap (λ k. k % n) (omega arith) ∙ mod_self n

abbrev filler_len : ℕ → ℕ → ℕ
filler_len q n = let room = n - q % n in if ltb packet_header_len room then room else room + n

whole_fields : (q n : ℕ) → 0 < n → (q + filler_len q n) % n ≡ 0
whole_fields q n h =
    let room = n - q % n in
    elim (dec_lt 6 room) [
      | yes large ↦ rw (lt→ltb 6 room large) (fills q n h)
      | no small ↦
          rw (le→not_ltb 6 room (omega arith))
            (ap (λ k. k % n) (omega arith) ∙ add-mod_right (q + room) n ∙ fills q n h)
    ]

-- Everything between the two ends was delivered: the packets `ps`, fillers excepted, in order, and
-- nothing else; both ends agree again, and no other channel changed at either end.
pub record Finished (b b' : TmFrameBuilder) (d d' : TmDeframer) (vcid : ℕ) (ps : List Bytes)
    : Type 0 where
  pub in_step : InStep b' d' vcid []
  pub delivers : Delivers b vcid d d' ps
  pub settings : SameSettings b b'
  pub queues : (j : ℕ) → vcid ≢ j → builder_vc_of b' j ≡ builder_vc_of b j

-- A move that leaves nothing, up to a filler at the end.
Moved-Finished :
    (b b' : TmFrameBuilder) (d d' : TmDeframer) (vcid : ℕ) (ps filler : List Bytes)
    → Moved b b' d d' vcid (ps ++ filler)
    → extracted (ctx b vcid) filler ≡ []
    → length (builder_vc_of b' vcid).queued ≡ 0
    → Finished b b' d d' vcid ps
Moved-Finished b b' d d' vcid ps filler m silent empty =
    let none_left = InStep-empty b' d' vcid m.in_step empty in
    let all_done : m.done ≡ ps ++ filler =
      sym (append-nil m.done) ∙ ap (◌++◌ m.done) (sym none_left) ∙ sym m.order in
    record {
      in_step = subst (InStep b' d' vcid) none_left m.in_step;
      settings = m.settings;
      queues = m.queues;
      delivers = record {
        emits =
            m.delivers.emits
            ∙ ap (λ qs. d.sink.emitted ++ extracted (ctx b vcid) qs) all_done
            ∙ ap (◌++◌ d.sink.emitted) (
                extracted-append (ctx b vcid) ps filler
                ∙ ap (◌++◌ (extracted (ctx b vcid) ps)) silent
                ∙ append-nil (extracted (ctx b vcid) ps));
        config_same = m.delivers.config_same;
        others = m.delivers.others;
      };
    }

filler_len-bounds : (q n : ℕ) → 6 ≤ n → n ≤ 2042 → (7 ≤ filler_len q n) × (filler_len q n ≤ 65542)
filler_len-bounds q n h l = let below : q % n < n = mod-lt q (omega arith) in ground (arith, below)

extracted-filler :
    (b : TmFrameBuilder) (vcid : ℕ) (p : Bytes)
    → packet_apid p ≡ idle_apid
    → extracted (ctx b vcid) (p ∷ []) ≡ []
unfolding extracted
extracted-filler b vcid p e =
    let same : (packet_apid p == idle_apid) ≡ true = ground arith in rw same

extracted-nil : (b : TmFrameBuilder) (vcid : ℕ) → extracted (ctx b vcid) [] ≡ []
unfolding extracted
extracted-nil b vcid = refl

flush_empty :
    (vcid : ℕ) (b : TmFrameBuilder)
    → length (builder_vc_of b (vcid % 2 ^ 3)).queued ≡ 0
    → flush vcid b ≡ (b, [])
unfolding flush
flush_empty vcid b e = rw e

flush_more :
    (vcid : ℕ) (b : TmFrameBuilder)
    → length (builder_vc_of b (vcid % 2 ^ 3)).queued ≢ 0
    → flush vcid b
      ≡ pack vcid
          (idle_packet
              (filler_len (length (builder_vc_of b (vcid % 2 ^ 3)).queued) (data_field_len b))
            ∷ [])
          b
unfolding flush
flush_more vcid b ne =
    let some_queued : (length (builder_vc_of b (vcid % 2 ^ 3)).queued == 0) ≡ false =
      ground arith in
    rw some_queued

module _ (b : TmFrameBuilder) (d : TmDeframer) (vcid : ℕ) {ps : List Bytes}
    (room : 6 ≤ data_field_len b) (l : InStep b d (vcid % 2 ^ 3) ps) where
  filled :
      let q = length (builder_vc_of b (vcid % 2 ^ 3)).queued in
      let filler = idle_packet (filler_len q (data_field_len b)) ∷ [] in
      Finished b (pack vcid filler b).0 d (receive_all d (pack vcid filler b).1) (vcid % 2 ^ 3) ps
  filled =
      let v = vcid % 2 ^ 3 in
      let at = builder_vc_of b v in
      let n = data_field_len b in
      let len = filler_len (length at.queued) n in
      let small = data_field_len-le b l.framer in
      let bounds = filler_len-bounds (length at.queued) n room (omega (arith, small)) in
      let (whole, idle, size) = idle_packet-IsPacket len bounds.0 bounds.1 in
      let filler = idle_packet len ∷ [] in
      let queued : length (builder_vc_of (with_queued v filler b) v).queued
          ≡ length at.queued + len =
        ap (λ at. length at.queued) (with_queued-vc v filler b l.framer l.channel)
        ∙ queued-queue_packets at filler
        ∙ ap (λ k. length at.queued + k) (ap length (append-nil (idle_packet len)) ∙ size) in
      Moved-Finished b (pack vcid filler b).0 d (receive_all d (pack vcid filler b).1) v ps filler
        (pack-Moved b d vcid filler (whole, tt) l) (extracted-filler b v (idle_packet len) idle)
        ((pack-Packed b d vcid filler (whole, tt) l).whole
          (ap (λ k. k % n) queued ∙ whole_fields (length at.queued) n (omega arith)))

  -- `flush` with a data field of at least 6 octets: everything between the two ends is delivered.
  pub flush-Finished :
      Finished b (flush vcid b).0 d (receive_all d (flush vcid b).1) (vcid % 2 ^ 3) ps
  flush-Finished =
      let v = vcid % 2 ^ 3 in
      elim (ℕ_discrete (length (builder_vc_of b v).queued) 0) [
        | yes e ↦
            subst (λ r. Finished b r.0 d (receive_all d r.1) v ps) (sym (flush_empty vcid b e))
              (Moved-Finished b b d d v ps []
                (subst (Moved b b d d v) (sym (append-nil ps)) (Moved-none l)) (extracted-nil b v)
                e)
        | no ne ↦
            subst (λ r. Finished b r.0 d (receive_all d r.1) v ps) (sym (flush_more vcid b ne))
              filled
      ]
