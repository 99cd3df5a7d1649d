-- ===== src/Frames/Link/Compose.antt =====
-- What crosses a link in one move and then in another.
use chronus_gateway.Prelude.{
  ℕ, ◌≡◌, refl, ap, sym, ◌∙◌, List, [], ◌∷◌, ◌++◌, ◌==◌, append_assoc, append-nil, Bool-cases, inl,
  inr,
}
use chronus_gateway.Words.{Bytes}
use chronus_gateway.Frames.Deframer.{TmDeframer, EmitCtx, packet_apid, idle_apid}
use chronus_gateway.Frames.Deframer.Reassembly.{extracted}
use chronus_gateway.Frames.Builder.{TmFrameBuilder, data_field_len}
use chronus_gateway.Frames.Link.State.{InStep, SameSettings, Moved, ctx, receive}

pub extracted-append :
    (c : EmitCtx) (ps qs : List Bytes) → extracted c (ps ++ qs) ≡ extracted c ps ++ extracted c qs
unfolding extracted
extracted-append c [] qs = refl
extracted-append c (p ∷ ps) qs = elim (Bool-cases (packet_apid p == idle_apid)) [
  | inl filler ↦ rw filler (extracted-append c ps qs)
  | inr real ↦ rw (real, extracted-append c ps qs)
]

-- The deframer behind the frames, in order.
abbrev pub receive_all : TmDeframer → List Bytes → TmDeframer
receive_all d [] = d
receive_all d (f ∷ fs) = receive_all (receive d f) fs

pub receive_all-append :
    (d : TmDeframer) (fs gs : List Bytes)
    → receive_all d (fs ++ gs) ≡ receive_all (receive_all d fs) gs
receive_all-append d [] gs = refl
receive_all-append d (f ∷ fs) gs = receive_all-append (receive d f) fs gs

pub SameSettings-trans :
    {b b' b'' : TmFrameBuilder} → SameSettings b b' → SameSettings b' b'' → SameSettings b b''
SameSettings-trans s s' = record {
  spacecraft = s'.spacecraft ∙ s.spacecraft;
  checksum = s'.checksum ∙ s.checksum;
  frame_length = s'.frame_length ∙ s.frame_length;
}

pub data_field_len-same :
    {b b' : TmFrameBuilder} → SameSettings b b' → data_field_len b' ≡ data_field_len b
data_field_len-same s = cc (s.checksum, s.frame_length)

module _ {b : TmFrameBuilder} {d : TmDeframer} {vcid : ℕ} where
  pub Moved-none : {ps : List Bytes} → InStep b d vcid ps → Moved b b d d vcid ps
  unfolding extracted
  Moved-none {ps} l = record {
    done = [];
    left = ps;
    order = refl;
    settings = record { spacecraft = refl; checksum = refl; frame_length = refl };
    queues = λ j ne. refl;
    in_step = l;
    delivers = record {
      emits = sym (append-nil d.sink.emitted);
      config_same = refl;
      others = λ j ne. refl;
    };
  }

  pub Moved-trans :
      {b' b'' : TmFrameBuilder} {d' d'' : TmDeframer} {ps : List Bytes}
      (m : Moved b b' d d' vcid ps)
      → Moved b' b'' d' d'' vcid m.left
      → Moved b b'' d d'' vcid ps
  Moved-trans {d' = d'} m m' = record {
    done = m.done ++ m'.done;
    left = m'.left;
    order = m.order ∙ ap (◌++◌ m.done) m'.order ∙ sym (append_assoc m.done m'.done m'.left);
    settings = SameSettings-trans m.settings m'.settings;
    queues = λ j ne. m'.queues j ne ∙ m.queues j ne;
    in_step = m'.in_step;
    delivers = record {
      emits =
          m'.delivers.emits
          ∙ ap
              (λ id.
                d'.sink.emitted ++ extracted (record { vcid = vcid; spacecraft_id = id }) m'.done)
              m.settings.spacecraft
          ∙ ap (λ es. es ++ extracted (ctx b vcid) m'.done) m.delivers.emits
          ∙ append_assoc d.sink.emitted (extracted (ctx b vcid) m.done)
              (extracted (ctx b vcid) m'.done)
          ∙ ap (◌++◌ d.sink.emitted) (sym (extracted-append (ctx b vcid) m.done m'.done));
      config_same = m'.delivers.config_same ∙ m.delivers.config_same;
      others = λ j ne. m'.delivers.others j ne ∙ m.delivers.others j ne;
    };
  }
