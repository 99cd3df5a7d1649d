-- ===== src/Frames/Stream.antt =====
-- `TmDeframer::push`, `push_stream` and `find_asm` of crates/gateway/src/frames.rs. The loop of
-- `push_stream` reads the stream only from `pos` on, so the model holds `stream[pos..]` as `rest`.
pub mod Marker
pub mod Kept
pub mod Loop
pub mod Split
pub mod Bound
use mathlib.Core.Option
use chronus_gateway.Prelude.{
  ℕ, zero, suc, ◌+◌, ◌-◌, ◌%◌, Bool, true, false, not, ◌&&◌, Option, none, some, List, [], ◌∷◌,
  ◌++◌, ltb, ◌==◌, if◌then◌else◌, length, take, drop,
}
use chronus_gateway.Words.{Bytes, fetch_add}
use chronus_gateway.Frames.Stats.{FramingStats, bump}
use chronus_gateway.Frames.Deframer.{TmDeframer, handle_frame, bump_invalid, is_empty, with_stats}

abbrev pub asm_len : ℕ
asm_len = 4

-- The window at the front is `ASM`, 1A CF FC 1D.
unfoldable pub starts_asm : Bytes → Bool
starts_asm (a ∷ b ∷ c ∷ d ∷ _) = a == 0x1A && b == 0xCF && c == 0xFC && d == 0x1D
starts_asm _ = false

-- `hay.windows(4).position(|w| w == ASM)`.
unfoldable pub find_asm : Bytes → Option ℕ
find_asm [] = none
find_asm (b ∷ bs) = if starts_asm (b ∷ bs) then some 0 else Option.map suc (find_asm bs)

abbrev pub discard : ℕ → TmDeframer → TmDeframer
discard n d =
    let st = d.sink.stats in
    with_stats d (record st { bytes_discarded = fetch_add st.bytes_discarded n })

-- A bad frame may have swallowed the next marker: the search goes on just past this one.
abbrev pub resume_at : ℕ → Bytes → Bool → Bytes
resume_at frame_len at true = drop (asm_len + frame_len) at
resume_at frame_len at false = drop 1 at

-- A marker stands at the front of `at`.
unfoldable pub at_marker : ℕ → Bytes → (Bytes → TmDeframer → TmDeframer) → TmDeframer → TmDeframer
at_marker frame_len at continue d =
    let (d', good) = handle_frame d (take frame_len (drop asm_len at)) in
    let next = continue (resume_at frame_len at good) d' in
    if ltb (length at) (asm_len + frame_len) then record d { stream = at } else next

-- One round, given the result of the search; `continue` is the next round.
unfoldable pub stream_round :
    ℕ → Option ℕ → Bytes → (Bytes → TmDeframer → TmDeframer) → TmDeframer → TmDeframer
stream_round frame_len none rest continue d =
    let skipped = length rest - (asm_len - 1) in
    record (discard skipped d) { stream = drop skipped rest }
stream_round frame_len (some rel) rest continue d =
    at_marker frame_len (drop rel rest) continue (discard rel d)

-- The `loop`, on fuel.
unfoldable pub scan : ℕ → ℕ → Bytes → TmDeframer → TmDeframer
scan zero frame_len rest d = record d { stream = rest }
scan (suc fuel) frame_len rest d =
    stream_round frame_len (find_asm rest) rest (λ r d'. scan fuel frame_len r d') d

-- Every round drops at least one byte.
unfoldable pub scan_all : ℕ → Bytes → TmDeframer → TmDeframer
scan_all frame_len rest d = scan (length rest + 1) frame_len rest d

-- `std::mem::take` empties the stream for the time of the loop.
unfoldable pub push_stream : Option ℕ → Bytes → TmDeframer → TmDeframer
push_stream none datagram d = bump_invalid d
push_stream (some frame_len) datagram d =
    scan_all frame_len (d.stream ++ datagram) (record d { stream = [] })

-- `for frame in datagram.chunks_exact(len)`, on fuel.
unfoldable pub push_chunks : ℕ → ℕ → Bytes → TmDeframer → TmDeframer
push_chunks zero len bytes d = d
push_chunks (suc fuel) len bytes d =
    let rest = push_chunks fuel len (drop len bytes) (handle_frame d (take len bytes)).0 in
    if ltb (length bytes) len then d else rest

-- `!datagram.is_empty() && datagram.len().is_multiple_of(len)`; zero divides no length but zero.
abbrev pub is_whole_frames : Bytes → ℕ → Bool
is_whole_frames datagram len = not (is_empty datagram) && length datagram % len == 0

unfoldable pub push_datagram : Option ℕ → Bytes → TmDeframer → TmDeframer
push_datagram none datagram d = (handle_frame d datagram).0
push_datagram (some len) datagram d =
    if is_whole_frames datagram len
    then push_chunks (length datagram) len datagram d
    else bump_invalid d

unfoldable pub push : Bytes → TmDeframer → TmDeframer
push datagram d =
    let st = d.sink.stats in
    let counted = with_stats d (record st { datagrams = bump st.datagrams }) in
    if d.asm
    then push_stream d.frame_length datagram counted
    else push_datagram d.frame_length datagram counted
