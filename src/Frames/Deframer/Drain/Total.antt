-- ===== src/Frames/Deframer/Drain/Total.antt =====
-- `drain_packets` always ends, and delivers every whole packet at the front of its buffer.
use chronus_gateway.Prelude.{
  concat, ℕ, zero, suc, ◌≤◌, ◌≡◌, refl, ap, sym, ◌∙◌, ◌⊎◌, inl, inr, List, [], ◌∷◌, ◌++◌, length,
  take, drop, All, arith, length-take, length-drop, take-append-drop, append_assoc, subst,
}
use native.Mathlib.Decide.{dec_lt, ℕ_discrete}
use chronus_gateway.Words.{Bytes}
use chronus_gateway.Frames.Deframer.{
  Sink, VcState, EmitCtx, lose_sync, declared_len, packet_version, drain_packets, packet_header_len,
}
use chronus_gateway.Frames.Deframer.Drain.{
  IsPacket, IsPartial, IsBroken, deliver_all, drain_packets_partial, drain_packets_broken,
  declared_len-append, packet_version-append,
}

-- Any buffer is a run of whole packets and a tail, in one way that the loop finds.
record Splits (p : Bytes) : Type 0 where
  packets : List Bytes
  tail : Bytes
  splits : p ≡ concat packets ++ tail
  whole : All IsPacket packets
  ends : IsPartial tail ⊎ IsBroken tail

Splits-cons : (p rest : Bytes) → IsPacket p → Splits rest → Splits (p ++ rest)
Splits-cons p rest w r = record {
  packets = p ∷ r.packets;
  tail = r.tail;
  splits = ap (◌++◌ p) r.splits ∙ sym (append_assoc p (concat r.packets) r.tail);
  whole = (w, r.whole);
  ends = r.ends;
}

take-IsPacket :
    (p : Bytes)
    → packet_header_len ≤ length p
    → packet_version p ≡ 0
    → declared_len p ≤ length p
    → IsPacket (take (declared_len p) p)
take-IsPacket p h v l =
    let whole = take-append-drop (declared_len p) p in
    let size = length-take (declared_len p) p in
    let long : 6 ≤ length (take (declared_len p) p) = omega arith in
    record {
      version_zero =
          sym (packet_version-append _ (drop (declared_len p) p) long)
          ∙ ap packet_version whole
          ∙ v;
      whole =
          size
          ∙ omega arith
          ∙ ap declared_len (sym whole)
          ∙ declared_len-append _ (drop (declared_len p) p) long;
    }

Splits-below : (fuel : ℕ) (p : Bytes) → length p ≤ fuel → Splits p
Splits-below zero p h = record {
  packets = [];
  tail = p;
  splits = refl;
  whole = tt;
  ends = inl (inl (omega arith));
}
Splits-below (suc fuel) p h = elim (dec_lt (length p) 6) [
  | yes short ↦ record { packets = []; tail = p; splits = refl; whole = tt; ends = inl (inl short) }
  | no header ↦ elim (ℕ_discrete (packet_version p) 0) [
    | no wrong ↦ record {
      packets = [];
      tail = p;
      splits = refl;
      whole = tt;
      ends = inr (omega arith, wrong);
    }
    | yes version ↦ elim (dec_lt (length p) (declared_len p)) [
      | yes short ↦ record {
        packets = [];
        tail = p;
        splits = refl;
        whole = tt;
        ends = inl (inr (version, omega arith, short));
      }
      | no long ↦ subst Splits (take-append-drop (declared_len p) p) (
          Splits-cons (take (declared_len p) p) (drop (declared_len p) p)
            (take-IsPacket p (omega arith) version (omega arith))
            (Splits-below fuel (drop (declared_len p) p)
              (omega (arith, length-drop (declared_len p) p))))
    ]
  ]
]

-- The buffer `vc.pending` falls into whole packets and a tail. The loop ends, having delivered
-- exactly these packets in order: with the tail kept if it is the start of a packet, and with
-- sync lost if it is not.
pub record Drained (ctx : EmitCtx) (vc : VcState) (s : Sink) : Type 0 where
  pub packets : List Bytes
  pub tail : Bytes
  pub splits : vc.pending ≡ concat packets ++ tail
  pub whole : All IsPacket packets
  pub result :
      (IsPartial tail
        × (drain_packets ctx vc s ≡ (record vc { pending = tail }, deliver_all ctx packets s)))
      ⊎ (IsBroken tail
          × (drain_packets ctx vc s
              ≡ lose_sync (record vc { pending = tail }) (deliver_all ctx packets s)))

drained :
    (ctx : EmitCtx) (vc : VcState) (s : Sink) (r : Splits vc.pending)
    → IsPartial r.tail ⊎ IsBroken r.tail
    → Drained ctx vc s
drained ctx vc s r (inl h) = record {
  packets = r.packets;
  tail = r.tail;
  splits = r.splits;
  whole = r.whole;
  result = inl (h, drain_packets_partial ctx vc r.packets r.tail s r.whole r.splits h);
}
drained ctx vc s r (inr h) = record {
  packets = r.packets;
  tail = r.tail;
  splits = r.splits;
  whole = r.whole;
  result = inr (h, drain_packets_broken ctx vc r.packets r.tail s r.whole r.splits h);
}

-- Any buffer is a row of whole packets and a rest. If the rest is the start of a packet, the loop
-- delivers exactly those packets in order and keeps the rest; if the rest cannot start a packet,
-- the loop delivers them and loses sync.
pub drain_packets-Drained : (ctx : EmitCtx) (vc : VcState) (s : Sink) → Drained ctx vc s
drain_packets-Drained ctx vc s =
    let r = Splits-below (length vc.pending) vc.pending (omega arith) in drained ctx vc s r r.ends
