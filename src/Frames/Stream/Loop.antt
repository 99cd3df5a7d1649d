-- ===== src/Frames/Stream/Loop.antt =====
-- The loop of `push_stream` ends: the fuel is always enough, so the loop equation holds.
use chronus_gateway.Prelude.{
  ℕ, zero, suc, ◌+◌, ◌<◌, ◌≡◌, Bool, true, false, length, drop, take, arith, Option-cases, inl, inr,
  length-drop,
}
use chronus_gateway.Words.{Bytes}
use chronus_gateway.Frames.Deframer.{TmDeframer, handle_frame}
use chronus_gateway.Frames.Stream.{
  find_asm, discard, resume_at, at_marker, stream_round, scan, scan_all,
}
use chronus_gateway.Frames.Stream.Marker.{find_asm-IsFirst}

pub resume_at-lt :
    (frame_len : ℕ) (at : Bytes) (good : Bool)
    → 0 < length at
    → length (resume_at frame_len at good) < length at
resume_at-lt frame_len at true h = omega (arith, length-drop (4 + frame_len) at)
resume_at-lt frame_len at false h = omega (arith, length-drop 1 at)

-- A round asks for the next one only on a shorter rest of the stream.
stream_round_cong :
    (frame_len : ℕ) (rest : Bytes) (k k' : Bytes → TmDeframer → TmDeframer) (d : TmDeframer)
    → ((r : Bytes) (e : TmDeframer) → length r < length rest → k r e ≡ k' r e)
    → stream_round frame_len (find_asm rest) rest k d
      ≡ stream_round frame_len (find_asm rest) rest k' d
unfolding stream_round at_marker
stream_round_cong frame_len rest k k' d same = elim (Option-cases (find_asm rest)) [
  | inl missing ↦ rw missing
  | inr (rel, found) ↦
      let at = drop rel rest in
      let handled = handle_frame (discard rel d) (take frame_len (drop 4 at)) in
      let first = find_asm-IsFirst rest rel found in
      let size = length-drop rel rest in
      let shorter = resume_at-lt frame_len at handled.1 (omega (arith, first.fits)) in
      rw (found, same (resume_at frame_len at handled.1) handled.0 (omega arith))
]

scan_enough :
    (f g frame_len : ℕ) (rest : Bytes) (d : TmDeframer)
    → length rest < f
    → length rest < g
    → scan f frame_len rest d ≡ scan g frame_len rest d
unfolding scan
scan_enough zero g frame_len rest d hf hg = absurd (omega arith)
scan_enough (suc f) zero frame_len rest d hf hg = absurd (omega arith)
scan_enough (suc f) (suc g) frame_len rest d hf hg =
    stream_round_cong frame_len rest _ _ d
      (λ r e h. scan_enough f g frame_len r e (omega arith) (omega arith))

-- The loop equation: one round, and then the whole loop on what the round leaves. So the loop
-- returns on every stream.
pub scan_all_round :
    (frame_len : ℕ) (rest : Bytes) (d : TmDeframer)
    → scan_all frame_len rest d
      ≡ stream_round frame_len (find_asm rest) rest (λ r d'. scan_all frame_len r d') d
unfolding scan scan_all
scan_all_round frame_len rest d =
    let one_more : length rest + 1 ≡ suc (length rest) = omega arith in
    rw one_more (
      stream_round_cong frame_len rest _ _ d (λ r e h.
        scan_enough (length rest) (length r + 1) frame_len r e (omega arith) (omega arith)))
