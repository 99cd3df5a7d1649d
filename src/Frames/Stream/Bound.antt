-- ===== src/Frames/Stream/Bound.antt =====
-- What holds of the deframer after any sequence of datagrams: its buffers stay bounded.
use chronus_gateway.Prelude.{
  ℕ, zero, suc, ◌+◌, ◌-◌, ◌<◌, ◌≡◌, refl, ap, sym, ◌∙◌, subst, Bool, true, false, Option, none,
  some, inl, inr, List, [], ◌∷◌, ◌++◌, ltb, if◌then◌else◌, length, take, drop, All, arith,
  All-append, All-take, All-drop, Bool-cases, Option-cases, length-drop, lt→ltb, le→not_ltb,
}
use native.Mathlib.Decide.{dec_lt}
use mathlib.Core.Option.{some-injective}
use chronus_gateway.Words.{Bytes, IsByte, IsBytes}
use chronus_gateway.Frames.Deframer.{
  TmDeframer, FramingConfig, handle_frame, new, reset, with_stats,
}
use chronus_gateway.Frames.Stats.{bump}
use chronus_gateway.Frames.Stream.Kept.{handle_frame-stream, handle_frame-config}
use chronus_gateway.Frames.Stream.Loop.{resume_at-lt}
use chronus_gateway.Frames.Deframer.Invariant.{
  DeframerOk, handle_frame-DeframerOk, fresh-ChannelsOk,
}
use chronus_gateway.Frames.Stream.{
  find_asm, discard, resume_at, at_marker, stream_round, scan, scan_all, push_stream, push_chunks,
  push_datagram, is_whole_frames, push,
}

-- What the loop over the byte stream leaves, started with configuration `cfg`.
record ScanOk (frame_len : ℕ) (cfg : FramingConfig) (d : TmDeframer) : Type 0 where
  channels : DeframerOk d
  octets : IsBytes d.stream
  short : length d.stream < 4 + frame_len
  same_config : d.config ≡ cfg

resume_at-IsBytes :
    (frame_len : ℕ) (at : Bytes) (good : Bool) → IsBytes at → IsBytes (resume_at frame_len at good)
resume_at-IsBytes frame_len at true h = All-drop IsByte (4 + frame_len) at h
resume_at-IsBytes frame_len at false h = All-drop IsByte 1 at h

scan-ScanOk :
    (fuel frame_len : ℕ) (rest : Bytes) (d : TmDeframer)
    → length rest < fuel
    → IsBytes rest
    → DeframerOk d
    → ScanOk frame_len d.config (scan fuel frame_len rest d)
unfolding scan stream_round at_marker
scan-ScanOk zero frame_len rest d h bytes v = absurd (omega arith)
scan-ScanOk (suc fuel) frame_len rest d h bytes v = elim (Option-cases (find_asm rest)) [
  | inl missing ↦ rw missing (record {
    channels = v;
    octets = All-drop IsByte (length rest - 3) rest bytes;
    short = omega (arith, length-drop (length rest - 3) rest);
    same_config = refl;
  })
  | inr (rel, found) ↦
      let at = drop rel rest in
      let octets = All-drop IsByte rel rest bytes in
      elim (dec_lt (length at) (4 + frame_len)) [
        | yes few ↦
            rw (found, lt→ltb _ _ few)
              (record { channels = v; octets = octets; short = few; same_config = refl })
        | no enough ↦
            let field = take frame_len (drop 4 at) in
            let handled = handle_frame (discard rel d) field in
            let shorter = resume_at-lt frame_len at handled.1 (omega arith) in
            let size = length-drop rel rest in
            let r =
              scan-ScanOk fuel frame_len (resume_at frame_len at handled.1) handled.0 (omega arith)
                (resume_at-IsBytes frame_len at handled.1 octets)
                (handle_frame-DeframerOk (discard rel d) field
                  (All-take IsByte frame_len _ (All-drop IsByte 4 at octets)) v) in
            rw (found, le→not_ltb (length at) (4 + frame_len) (omega arith))
              (record {
                channels = r.channels;
                octets = r.octets;
                short = r.short;
                same_config = r.same_config ∙ handle_frame-config (discard rel d) field;
              })
      ]
]

-- What may be buffered between two datagrams: octets, and less than a marker and a frame.
pub record StreamOk (d : TmDeframer) : Type 0 where
  pub octets : IsBytes d.stream
  pub short : (frame_len : ℕ) → d.frame_length ≡ some frame_len → length d.stream < 4 + frame_len

pub record Ok (d : TmDeframer) : Type 0 where
  pub channels : DeframerOk d
  pub stream : StreamOk d

push_stream-Ok :
    (frame_length : Option ℕ) (datagram : Bytes) (d : TmDeframer)
    → d.frame_length ≡ frame_length
    → IsBytes datagram
    → Ok d
    → Ok (push_stream frame_length datagram d)
unfolding push_stream scan_all
push_stream-Ok none datagram d e bytes v = record {
  channels = v.channels;
  stream = record { octets = v.stream.octets; short = v.stream.short };
}
push_stream-Ok (some frame_len) datagram d e bytes v =
    let r =
      scan-ScanOk (length (d.stream ++ datagram) + 1) frame_len (d.stream ++ datagram)
        (record d { stream = [] }) (omega arith)
        (All-append IsByte d.stream datagram v.stream.octets bytes) v.channels in
    record {
      channels = r.channels;
      stream = record {
        octets = r.octets;
        short = λ n same.
            subst (λ m. length (push_stream (some frame_len) datagram d).stream < 4 + m)
              (some-injective _ _ (sym e ∙ sym (ap (λ c. c.frame_length) r.same_config) ∙ same))
              r.short;
      };
    }

handle_frame-Ok : (d : TmDeframer) (raw : Bytes) → IsBytes raw → Ok d → Ok (handle_frame d raw).0
handle_frame-Ok d raw bytes v =
    let stream = handle_frame-stream d raw in
    let config = handle_frame-config d raw in
    record {
      channels = handle_frame-DeframerOk d raw bytes v.channels;
      stream = record {
        octets = subst IsBytes (sym stream) v.stream.octets;
        short = λ n same.
            subst (λ b. length b < 4 + n) (sym stream)
              (v.stream.short n (sym (ap (λ c. c.frame_length) config) ∙ same));
      };
    }

push_chunks-Ok :
    (fuel len : ℕ) (bytes : Bytes) (d : TmDeframer)
    → IsBytes bytes
    → Ok d
    → Ok (push_chunks fuel len bytes d)
unfolding push_chunks
push_chunks-Ok zero len bytes d b v = v
push_chunks-Ok (suc fuel) len bytes d b v = elim (Bool-cases (ltb (length bytes) len)) [
  | inl stop ↦ rw stop v
  | inr go ↦ rw go (
      push_chunks-Ok fuel len (drop len bytes) _ (All-drop IsByte len bytes b)
        (handle_frame-Ok d (take len bytes) (All-take IsByte len bytes b) v))
]

push_datagram-Ok :
    (frame_length : Option ℕ) (datagram : Bytes) (d : TmDeframer)
    → IsBytes datagram
    → Ok d
    → Ok (push_datagram frame_length datagram d)
unfolding push_datagram
push_datagram-Ok none datagram d bytes v = handle_frame-Ok d datagram bytes v
push_datagram-Ok (some len) datagram d bytes v = elim (Bool-cases (is_whole_frames datagram len)) [
  | inl whole ↦ rw whole (push_chunks-Ok (length datagram) len datagram d bytes v)
  | inr odd ↦ rw odd (record {
    channels = v.channels;
    stream = record { octets = v.stream.octets; short = v.stream.short };
  })
]

if-Ok : (b : Bool) {d e : TmDeframer} → Ok d → Ok e → Ok (if b then d else e)
if-Ok true v w = v
if-Ok false v w = w

push-Ok : (datagram : Bytes) (d : TmDeframer) → IsBytes datagram → Ok d → Ok (push datagram d)
unfolding push
push-Ok datagram d bytes v =
    let st = d.sink.stats in
    let counted = with_stats d (record st { datagrams = bump st.datagrams }) in
    let v' : Ok counted = record {
      channels = v.channels;
      stream = record { octets = v.stream.octets; short = v.stream.short };
    } in
    if-Ok d.asm (push_stream-Ok d.frame_length datagram counted refl bytes v')
      (push_datagram-Ok d.frame_length datagram counted bytes v')

reset-Ok : (d : TmDeframer) → Ok (reset d)
unfolding reset
reset-Ok d = record {
  channels = fresh-ChannelsOk;
  stream = record { octets = tt; short = λ n same. omega arith };
}

-- What the owner of a deframer may do with it.
pub data Operation : Type 0 where
  pushes : Bytes → Operation
  resets : Operation

unfoldable pub operate : Operation → TmDeframer → TmDeframer
operate (pushes datagram) d = push datagram d
operate resets d = reset d

unfoldable pub run : List Operation → TmDeframer → TmDeframer
run [] d = d
run (o ∷ os) d = run os (operate o d)

abbrev pub CarriesOctets : Operation → Type 0
CarriesOctets (pushes datagram) = IsBytes datagram
CarriesOctets resets = Unit

run-Ok : (os : List Operation) (d : TmDeframer) → All CarriesOctets os → Ok d → Ok (run os d)
unfolding run operate
run-Ok [] d b v = v
run-Ok (pushes datagram ∷ os) d b v = run-Ok os (push datagram d) b.1 (push-Ok datagram d b.0 v)
run-Ok (resets ∷ os) d b v = run-Ok os (reset d) b.1 (reset-Ok d)

-- After any sequence of datagrams, whatever octets they hold, and of resets, a new deframer has
-- its eight channels, each buffers at most the start of one packet, and nothing when out of sync,
-- and the byte stream is shorter than a marker and a frame.
pub run-new-Ok :
    (cfg : FramingConfig) (os : List Operation) → All CarriesOctets os → Ok (run os (new cfg))
run-new-Ok cfg os b = run-Ok os (new cfg) b (record {
  channels = fresh-ChannelsOk;
  stream = record { octets = tt; short = λ n same. omega arith };
})
