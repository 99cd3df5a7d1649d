-- ===== src/Frames/Stream/Split.antt =====
-- `push_stream` does not depend on how the byte stream is cut into datagrams.
use mathlib.Core.Option
use chronus_gateway.Prelude.{
  ℕ, zero, suc, ◌+◌, ◌-◌, ◌≤◌, ◌<◌, ◌≡◌, refl, ap, sym, ◌∙◌, Bool, true, false, Option, none, some,
  [], ◌++◌, length, drop, take, arith, Option-cases, inl, inr, ◌⊎◌, length-drop, length-append,
  drop-append, take-append, drop-drop, append_assoc, lt→ltb, le→not_ltb,
}
use native.Mathlib.Decide.{dec_lt}
use native.Mathlib.Nat.{add-zero}
use chronus_gateway.Words.{Bytes, fetch_add-fetch_add}
use chronus_gateway.Frames.Deframer.{TmDeframer, handle_frame}
use chronus_gateway.Frames.Stream.{
  find_asm, starts_asm, discard, resume_at, at_marker, stream_round, scan_all, push_stream,
}
use chronus_gateway.Frames.Stream.Marker.{
  find_asm-IsFirst, find_asm-append, find_asm-append_none, find_asm_here, starts_asm-append,
  starts_asm-length,
}
use chronus_gateway.Frames.Stream.Kept.{handle_frame-stream}
use chronus_gateway.Frames.Stream.Loop.{resume_at-lt, scan_all_round}

discard-discard : (a b : ℕ) (d : TmDeframer) → discard b (discard a d) ≡ discard (a + b) d
discard-discard a b d =
    ap
      (λ n. record d {
        sink = record d.sink { stats = record d.sink.stats { bytes_discarded = n } };
      })
      (fetch_add-fetch_add d.sink.stats.bytes_discarded a b)

abbrev with_stream : Bytes → TmDeframer → TmDeframer
with_stream bytes d = record d { stream = bytes }

module _ (frame_len : ℕ) (k : Bytes → TmDeframer → TmDeframer) where
  -- To search from `n` bytes on is to discard them, if no marker can begin in them.
  round_skip :
      (n : ℕ) (o : Option ℕ) (r x : Bytes) (d : TmDeframer)
      → (n ≡ 0) ⊎ (n + 3 ≤ length r)
      → stream_round frame_len (Option.map (λ j. n + j) o) (r ++ x) k d
        ≡ stream_round frame_len o (drop n r ++ x) k (discard n d)
  unfolding stream_round
  round_skip n none r x d h =
      let size = length-append r x in
      let size' = length-append (drop n r) x in
      let cut = length-drop n r in
      let fits : n ≤ length r = omega arith in
      let total : length (r ++ x) - 3 ≡ n + (length (drop n r ++ x) - 3) = omega arith in
      let skipped = length (drop n r ++ x) - 3 in
      rw total (
        ap (with_stream (drop (n + skipped) (r ++ x))) (sym (discard-discard n skipped d))
        ∙ ap (λ bytes. with_stream bytes (discard skipped (discard n d)))
            (drop-drop n skipped (r ++ x) ∙ ap (drop skipped) (drop-append n r x fits)))
  round_skip n (some j) r x d h =
      let fits : n ≤ length r = omega arith in
      ap (λ e. at_marker frame_len (drop (n + j) (r ++ x)) k e) (sym (discard-discard n j d))
      ∙ ap (λ bytes. at_marker frame_len bytes k (discard j (discard n d)))
          (drop-drop n j (r ++ x) ∙ ap (drop j) (drop-append n r x fits))

-- What a later datagram `x` does to the state that an earlier one left.
abbrev more : ℕ → Bytes → TmDeframer → TmDeframer
more frame_len x d = scan_all frame_len (d.stream ++ x) (record d { stream = [] })

resume_at-append :
    (frame_len : ℕ) (at x : Bytes) (good : Bool)
    → 4 + frame_len ≤ length at
    → resume_at frame_len (at ++ x) good ≡ resume_at frame_len at good ++ x
resume_at-append frame_len at x true h = drop-append (4 + frame_len) at x h
resume_at-append frame_len at x false h = drop-append 1 at x (omega arith)

-- `at` begins with a marker and holds a whole frame: the round reads nothing behind it.
at_marker_whole :
    (frame_len : ℕ) (at x : Bytes) (k : Bytes → TmDeframer → TmDeframer) (d : TmDeframer)
    → 4 + frame_len ≤ length at
    → let handled = handle_frame d (take frame_len (drop 4 at)) in
      at_marker frame_len (at ++ x) k d ≡ k (resume_at frame_len at handled.1 ++ x) handled.0
unfolding at_marker
at_marker_whole frame_len at x k d h =
    let handled = handle_frame d (take frame_len (drop 4 at)) in
    let size = length-append at x in
    let cut = length-drop 4 at in
    let field : take frame_len (drop 4 (at ++ x)) ≡ take frame_len (drop 4 at) =
      ap (take frame_len) (drop-append 4 at x (omega arith))
      ∙ take-append frame_len (drop 4 at) x (omega arith) in
    rw (field, le→not_ltb (length (at ++ x)) (4 + frame_len) (omega arith))
      (ap (λ r. k r handled.0) (resume_at-append frame_len at x handled.1 h))

at_marker_short :
    (frame_len : ℕ) (at : Bytes) (k : Bytes → TmDeframer → TmDeframer) (d : TmDeframer)
    → length at < 4 + frame_len
    → at_marker frame_len at k d ≡ with_stream at d
unfolding at_marker
at_marker_short frame_len at k d h = rw (lt→ltb _ _ h)

at_marker_alone :
    (frame_len : ℕ) (at : Bytes) (k : Bytes → TmDeframer → TmDeframer) (d : TmDeframer)
    → 4 + frame_len ≤ length at
    → let handled = handle_frame d (take frame_len (drop 4 at)) in
      at_marker frame_len at k d ≡ k (resume_at frame_len at handled.1) handled.0
unfolding at_marker
at_marker_alone frame_len at k d h = rw (le→not_ltb _ _ h)

-- A marker at the front is found at once, and nothing is discarded.
scan_all-at_marker :
    (frame_len : ℕ) (at : Bytes) (n : ℕ) (d : TmDeframer)
    → starts_asm at ≡ true
    → scan_all frame_len at (discard n d)
      ≡ at_marker frame_len at (λ r d'. scan_all frame_len r d') (discard n d)
unfolding stream_round
scan_all-at_marker frame_len at n d h =
    scan_all_round frame_len at (discard n d)
    ∙ ap (λ o. stream_round frame_len o at (λ r d'. scan_all frame_len r d') (discard n d))
        (find_asm_here at h)
    ∙ ap (at_marker frame_len at (λ r d'. scan_all frame_len r d'))
        (discard-discard n 0 d ∙ ap (λ m. discard m d) (add-zero n))

module _ (frame_len : ℕ) (x : Bytes) where
  abbrev loop : Bytes → TmDeframer → TmDeframer
  loop r d = scan_all frame_len r d

  -- No marker yet: the last three bytes wait for `x`.
  split_missing :
      (r : Bytes) (d : TmDeframer)
      → d.stream ≡ []
      → find_asm r ≡ none
      → loop (r ++ x) d ≡ more frame_len x (loop r d)
  unfolding stream_round
  split_missing r d e missing =
      let n = length r - 3 in
      let place : (n ≡ 0) ⊎ (n + 3 ≤ length r) = grind arith in
      let first =
        scan_all_round frame_len r d ∙ ap (λ o. stream_round frame_len o r loop d) missing in
      scan_all_round frame_len (r ++ x) d
      ∙ ap (λ o. stream_round frame_len o (r ++ x) loop d)
          (find_asm-append_none n r x missing place)
      ∙ round_skip frame_len loop n (find_asm (drop n r ++ x)) r x d place
      ∙ sym (scan_all_round frame_len (drop n r ++ x) (discard n d))
      ∙ ap (λ b. loop (drop n r ++ x) (with_stream b (discard n d))) e
      ∙ sym (ap (more frame_len x) first)

  found_alone :
      (r : Bytes) (rel : ℕ) (d : TmDeframer)
      → find_asm r ≡ some rel
      → loop r d ≡ at_marker frame_len (drop rel r) loop (discard rel d)
  unfolding stream_round
  found_alone r rel d found =
      scan_all_round frame_len r d ∙ ap (λ o. stream_round frame_len o r loop d) found

  found_more :
      (r : Bytes) (rel : ℕ) (d : TmDeframer)
      → find_asm r ≡ some rel
      → loop (r ++ x) d ≡ at_marker frame_len (drop rel r ++ x) loop (discard rel d)
  found_more r rel d found =
      let first = find_asm-IsFirst r rel found in
      found_alone (r ++ x) rel d (find_asm-append r x rel found)
      ∙ ap (λ at. at_marker frame_len at loop (discard rel d))
          (drop-append rel r x (omega (arith, first.fits)))

  -- A marker with less than a frame behind it waits for `x`.
  split_short :
      (r : Bytes) (rel : ℕ) (d : TmDeframer)
      → d.stream ≡ []
      → find_asm r ≡ some rel
      → length (drop rel r) < 4 + frame_len
      → loop (r ++ x) d ≡ more frame_len x (loop r d)
  split_short r rel d e found short =
      let at = drop rel r in
      let first = find_asm-IsFirst r rel found in
      let stands = starts_asm-append at x (starts_asm-length at first.stands) ∙ first.stands in
      found_more r rel d found
      ∙ sym (scan_all-at_marker frame_len (at ++ x) rel d stands)
      ∙ ap (λ b. loop (at ++ x) (with_stream b (discard rel d))) e
      ∙ sym (
          ap (more frame_len x)
            (found_alone r rel d found ∙ at_marker_short frame_len at loop (discard rel d) short))

  split_below :
      (n : ℕ) (r : Bytes) (d : TmDeframer)
      → length r < n
      → d.stream ≡ []
      → loop (r ++ x) d ≡ more frame_len x (loop r d)
  split_below zero r d h e = absurd (omega arith)
  split_below (suc n) r d h e = elim (Option-cases (find_asm r)) [
    | inl missing ↦ split_missing r d e missing
    | inr (rel, found) ↦ elim (dec_lt (length (drop rel r)) (4 + frame_len)) [
      | yes short ↦ split_short r rel d e found short
      | no long ↦
          let at = drop rel r in
          let first = find_asm-IsFirst r rel found in
          let size = length-drop rel r in
          let whole : 4 + frame_len ≤ length at = omega arith in
          let handled = handle_frame (discard rel d) (take frame_len (drop 4 at)) in
          let shorter = resume_at-lt frame_len at handled.1 (omega arith) in
          found_more r rel d found
          ∙ at_marker_whole frame_len at x loop (discard rel d) whole
          ∙ split_below n (resume_at frame_len at handled.1) handled.0 (omega arith)
              (handle_frame-stream (discard rel d) (take frame_len (drop 4 at)) ∙ e)
          ∙ sym (
              ap (more frame_len x) (
                found_alone r rel d found
                ∙ at_marker_alone frame_len at loop (discard rel d) whole))
    ]
  ]

-- In ASM mode, two datagrams in a row do what one datagram with the bytes of both does: the same
-- packets reach the callback in the same order, and the counters, the buffered bytes and the state
-- of every channel are the same. So a frame may be split across datagrams at any byte.
pub push_stream-append :
    (frame_len : ℕ) (a b : Bytes) (d : TmDeframer)
    → push_stream (some frame_len) (a ++ b) d
      ≡ push_stream (some frame_len) b (push_stream (some frame_len) a d)
unfolding push_stream
push_stream-append frame_len a b d =
    ap (λ bytes. scan_all frame_len bytes (with_stream [] d)) (sym (append_assoc d.stream a b))
    ∙ split_below frame_len b (length (d.stream ++ a) + 1) (d.stream ++ a) (with_stream [] d)
        (omega arith) refl
