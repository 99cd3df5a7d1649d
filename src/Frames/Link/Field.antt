-- ===== src/Frames/Link/Field.antt =====
-- The data field that `emit_frame` cuts from its queue, with the pointer that it computes from the
-- starts of the packets.
use chronus_gateway.Prelude.{
  concat, ℕ, ◌+◌, ◌-◌, ◌%◌, ◌^◌, ◌<◌, ◌≤◌, ◌≡◌, ap, ◌∙◌, List, [], ◌∷◌, ◌++◌, length, ltb, take,
  drop, All, arith, length-append, length-take, take-append-drop, append_assoc, lt→ltb, le→not_ltb,
  if◌then◌else◌,
}
use native.Mathlib.Decide.{dec_lt}
use chronus_gateway.Words.{Bytes}
use chronus_gateway.Frames.Deframer.{fhp_no_packet_start, fhp_idle}
use chronus_gateway.Frames.Deframer.Drain.{IsPacket}
use chronus_gateway.Frames.Builder.{pop_before, pointer_at}
use chronus_gateway.Frames.Link.Split.{Begins}
use chronus_gateway.Frames.Link.Pointer.{offsets, Sent, Sent-continues, Sent-starts, Sent-aligned}

module _ (at n : ℕ) where
  pointer_aligned :
      (e : ℕ) (p : Bytes) (ps : List Bytes)
      → 0 < n
      → e ≡ at
      → pointer_at at n (pop_before at (offsets e (p ∷ ps))) ≡ 0
  unfolding pop_before pointer_at
  pointer_aligned e p ps h same =
      let here = le→not_ltb e at (omega arith) in
      let inside = lt→ltb e (at + n) (omega arith) in
      let zero : (e - at) % 2 ^ 16 ≡ 0 = omega arith in rw (here, inside, zero)

  pointer_last :
      (e : ℕ) (p : Bytes)
      → e < at
      → pointer_at at n (pop_before at (offsets e (p ∷ []))) ≡ fhp_no_packet_start
  unfolding pop_before pointer_at
  pointer_last e p h = rw (lt→ltb e at h)

  pointer_next :
      (e : ℕ) (p q : Bytes) (ps : List Bytes)
      → e < at
      → at ≤ e + length p
      → pointer_at at n (pop_before at (offsets e (p ∷ q ∷ ps))) ≡ (
          if ltb (e + length p) (at + n) then (e + length p - at) % 2 ^ 16 else fhp_no_packet_start)
  unfolding pop_before pointer_at
  pointer_next e p q ps h l =
      let popped = lt→ltb e at h in let stays = le→not_ltb (e + length p) at l in rw (popped, stays)

module _ (at n : ℕ) (t queued : Bytes) where
  -- The packet in progress ends inside the field, and another one starts behind it.
  field_next :
      (p q : Bytes) (ps : List Bytes)
      → All IsPacket (p ∷ q ∷ ps)
      → 0 < length t
      → length t < length p
      → t ++ queued ≡ concat (p ∷ q ∷ ps)
      → n ≤ length queued
      → n < fhp_idle
      → length t ≤ at
      → Sent t
          (pointer_at at n (pop_before at (offsets (at - length t) (p ∷ q ∷ ps))))
          (take n queued)
          (drop n queued)
          (p ∷ q ∷ ps)
  field_next p q ps w some_sent part e full small sent =
      let size : length (take n queued) ≡ n = omega (arith, length-take n queued) in
      let row : (t ++ take n queued) ++ drop n queued ≡ concat (p ∷ q ∷ ps) =
        append_assoc t (take n queued) (drop n queued)
        ∙ ap (◌++◌ t) (take-append-drop n queued)
        ∙ e in
      let start : at - length t + length p - at ≡ length p - length t = omega arith in
      rw (pointer_next at n (at - length t) p q ps (omega arith) (omega arith))
        (elim (dec_lt (at - length t + length p) (at + n)) [
          | yes inside ↦
              let fits : (length p - length t) % 2 ^ 16 ≡ length p - length t = omega arith in
              rw (lt→ltb _ _ inside, start, fits)
                (Sent-starts t (take n queued) (drop n queued) p (q ∷ ps) w some_sent part
                  (omega arith) (omega arith) row)
          | no beyond ↦
              rw (le→not_ltb (at - length t + length p) (at + n) (omega arith))
                (Sent-continues t (take n queued) (drop n queued) (p ∷ q ∷ ps) w some_sent row)
        ])

pub field :
    (at n : ℕ) (t queued : Bytes) (ps : List Bytes)
    → All IsPacket ps
    → Begins t ps
    → t ++ queued ≡ concat ps
    → 0 < n
    → n ≤ length queued
    → n < fhp_idle
    → length t ≤ at
    → Sent t
        (pointer_at at n (pop_before at (offsets (at - length t) ps)))
        (take n queued)
        (drop n queued)
        ps
field at n t queued [] w b e some_room full small sent =
    absurd (omega (arith, ap length e, length-append t queued))
field at n [] queued (p ∷ ps) w b e some_room full small sent =
    let size : 0 < length (take n queued) = omega (arith, length-take n queued) in
    rw (pointer_aligned at n (at - 0) p ps some_room (omega arith))
      (Sent-aligned (take n queued) (drop n queued) (p ∷ ps) w size (take-append-drop n queued ∙ e))
field at n (o ∷ t) queued (p ∷ []) w b e some_room full small sent =
    rw (pointer_last at n (at - length (o ∷ t)) p (omega arith)) (
      Sent-continues (o ∷ t) (take n queued) (drop n queued) (p ∷ []) w (omega arith) (
        append_assoc (o ∷ t) (take n queued) (drop n queued)
        ∙ ap (◌++◌ (o ∷ t)) (take-append-drop n queued)
        ∙ e))
field at n (o ∷ t) queued (p ∷ q ∷ ps) w b e some_room full small sent =
    field_next at n (o ∷ t) queued p q ps w (omega arith) b e full small sent
