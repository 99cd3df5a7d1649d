-- ===== src/Frames/Deframer/Accept.antt =====
-- `TmDeframer::accept` on a frame of a virtual channel: reassembly without loss, and isolation of
-- the channels.
use chronus_gateway.Prelude.{
  ℕ, ◌<◌, ◌≡◌, ◌≢◌, refl, ap, sym, ◌∙◌, subst, Bool, true, false, some, List, [], ◌∷◌, ◌++◌, length,
  get_or, arith, get_or-set_self, get_or-set_ne,
}
use chronus_gateway.Words.{Bytes, wrapping_succ_u8}
use chronus_gateway.Frames.Parse.{TmFrame}
use chronus_gateway.Frames.Stats.{bump}
use chronus_gateway.Frames.Deframer.{
  Sink, VcState, EmitCtx, TmDeframer, fresh_vc, lose_sync, count_dropped, is_gap, note_vc_count,
  note_mc_count, extract, accept_vc, accept, is_other_spacecraft, is_filtered,
}
use chronus_gateway.Frames.Deframer.Drain.{deliver_all}
use chronus_gateway.Frames.Deframer.Reassembly.{
  Carries, extract_in_sync, extracted, emitted-deliver_all,
}

abbrev pub ctx_of : TmFrame → EmitCtx
ctx_of f = record { vcid = f.header.vcid; spacecraft_id = f.header.spacecraft_id }

abbrev pub vc_of : TmDeframer → ℕ → VcState
vc_of d vcid = get_or d.vcs vcid fresh_vc

-- The frame passes the spacecraft and channel filters, and its channel exists.
pub record IsWanted (d : TmDeframer) (f : TmFrame) : Type 0 where
  pub spacecraft : is_other_spacecraft d.spacecraft_id f.header.spacecraft_id ≡ false
  pub channel : is_filtered d.virtual_channels f.header.vcid ≡ false
  pub exists : f.header.vcid < length d.vcs

-- The state of one channel behind `accept`, and what the callback has received.
pub record Lands (d d' : TmDeframer) (f : TmFrame) (ps : List Bytes) (t : Bytes) (sync : Bool)
    : Type 0 where
  pub emits : d'.sink.emitted ≡ d.sink.emitted ++ extracted (ctx_of f) ps
  pub keeps :
      vc_of d' f.header.vcid
      ≡ record { pending = t; in_sync = sync; last_count = some f.header.vc_frame_count }
  pub others : (j : ℕ) → f.header.vcid ≢ j → vc_of d' j ≡ vc_of d j

-- The channel is in sync.
abbrev pub Outcome : TmDeframer → TmDeframer → TmFrame → List Bytes → Bytes → Type 0
Outcome d d' f ps t = Lands d d' f ps t true

pub note_mc_same :
    (count : ℕ) (d : TmDeframer)
    → ((note_mc_count count d).vcs ≡ d.vcs)
      × ((note_mc_count count d).sink.emitted ≡ d.sink.emitted)
      × ((note_mc_count count d).config ≡ d.config)
unfolding note_mc_count
note_mc_same count d = ground arith

pub emitted-count_dropped : (p : Bytes) (s : Sink) → (count_dropped p s).emitted ≡ s.emitted
unfolding count_dropped
emitted-count_dropped [] s = refl
emitted-count_dropped (b ∷ p) s = refl

note_vc_count_next :
    (count last : ℕ) (vc : VcState) (s : Sink)
    → vc.last_count ≡ some last
    → count ≡ wrapping_succ_u8 last
    → note_vc_count count vc s ≡ (record vc { last_count = some count }, s)
unfolding note_vc_count
note_vc_count_next count last vc s was next =
    let same : is_gap vc.last_count count ≡ false = rw was (ground arith) in rw same

pub note_vc_count_gap :
    (count last : ℕ) (vc : VcState) (s : Sink)
    → vc.last_count ≡ some last
    → count ≢ wrapping_succ_u8 last
    → (s' : Sink) × (s'.emitted ≡ s.emitted)
      × (note_vc_count count vc s
          ≡ (record { pending = []; in_sync = false; last_count = some count }, s'))
unfolding note_vc_count lose_sync
note_vc_count_gap count last vc s was gap =
    let gapped = record s {
      stats = record s.stats { vc_frame_gaps = bump s.stats.vc_frame_gaps };
    } in
    let other : is_gap vc.last_count count ≡ true = rw was (ground arith) in
    (count_dropped vc.pending gapped, emitted-count_dropped vc.pending gapped, rw other)

-- A frame that passes the filters reaches `accept_vc`.
pub accept-accept_vc :
    (d : TmDeframer) (f : TmFrame)
    → IsWanted d f
    → accept d f ≡ accept_vc f (note_mc_count f.header.mc_frame_count d)
unfolding accept
accept-accept_vc d f w =
    let same = note_mc_same f.header.mc_frame_count d in
    let channel : is_filtered (note_mc_count f.header.mc_frame_count d).virtual_channels
          f.header.vcid
        ≡ false =
      ap (λ c. is_filtered c.virtual_channels f.header.vcid) same.2 ∙ w.channel in
    rw (w.spacecraft, channel)

abbrev pub frame_counted : TmDeframer → Sink
frame_counted d = record d.sink {
  stats = record d.sink.stats { frames_ok = bump d.sink.stats.frames_ok };
}

module _ (d : TmDeframer) (f : TmFrame) (ps : List Bytes) (t : Bytes)
    (exists : f.header.vcid < length d.vcs) where
  -- From what the channel's step does to what `accept_vc` does.
  pub accept_vc-Lands :
      (sync : Bool) {vc vc' : VcState} {s s' : Sink}
      → note_vc_count f.header.vc_frame_count (vc_of d f.header.vcid) (frame_counted d) ≡ (vc, s)
      → extract (ctx_of f) f.header.first_header_pointer f.payload vc s ≡ (vc', s')
      → vc' ≡ record { pending = t; in_sync = sync; last_count = some f.header.vc_frame_count }
      → s'.emitted ≡ d.sink.emitted ++ extracted (ctx_of f) ps
      → Lands d (accept_vc f d) f ps t sync
  unfolding accept_vc
  accept_vc-Lands sync {vc} {vc'} {s} {s'} noted step left emits =
      rw (noted, step)
        (record {
          emits = emits;
          keeps = get_or-set_self d.vcs f.header.vcid _ fresh_vc exists ∙ left;
          others = λ j ne. get_or-set_ne d.vcs f.header.vcid j _ fresh_vc ne;
        })

  pub accept_vc-Outcome :
      (vc : VcState) (s : Sink)
      → s.emitted ≡ d.sink.emitted
      → note_vc_count f.header.vc_frame_count (vc_of d f.header.vcid) (frame_counted d) ≡ (vc, s)
      → vc.last_count ≡ some f.header.vc_frame_count
      → extract (ctx_of f) f.header.first_header_pointer f.payload vc s
        ≡ (record vc { pending = t; in_sync = true }, deliver_all (ctx_of f) ps s)
      → Outcome d (accept_vc f d) f ps t
  accept_vc-Outcome vc s same noted last step =
      accept_vc-Lands true noted step
        (ap (λ l. record { pending = t; in_sync = true; last_count = l }) last)
        (emitted-deliver_all (ctx_of f) ps s ∙ ap (λ l. l ++ extracted (ctx_of f) ps) same)

-- The spacecraft's own counter changes no channel.
pub accept_by_vc :
    (d : TmDeframer) (f : TmFrame) {ps : List Bytes} {t : Bytes} {sync : Bool}
    → IsWanted d f
    → Lands
        (note_mc_count f.header.mc_frame_count d)
        (accept_vc f (note_mc_count f.header.mc_frame_count d))
        f
        ps
        t
        sync
    → Lands d (accept d f) f ps t sync
accept_by_vc d f {ps} w o =
    let same = note_mc_same f.header.mc_frame_count d in
    rw (accept-accept_vc d f w) (record {
      emits = o.emits ∙ ap (λ l. l ++ extracted (ctx_of f) ps) same.1;
      keeps = o.keeps;
      others = λ j ne. o.others j ne ∙ ap (λ l. get_or l j fresh_vc) same.0;
    })

accept_vc_in_sync :
    (d : TmDeframer) (f : TmFrame) (last : ℕ) {ps : List Bytes} {t : Bytes}
    → f.header.vcid < length d.vcs
    → (vc_of d f.header.vcid).in_sync ≡ true
    → (vc_of d f.header.vcid).last_count ≡ some last
    → f.header.vc_frame_count ≡ wrapping_succ_u8 last
    → Carries (vc_of d f.header.vcid).pending f.header.first_header_pointer f.payload ps t
    → Outcome d (accept_vc f d) f ps t
accept_vc_in_sync d f last {ps} {t} exists sync was next carries =
    let vc = vc_of d f.header.vcid in
    let noted : VcState = record vc { last_count = some f.header.vc_frame_count } in
    accept_vc-Outcome d f ps t exists noted (frame_counted d) refl
      (note_vc_count_next f.header.vc_frame_count last vc (frame_counted d) was next) refl
      (extract_in_sync (ctx_of f) f.header.first_header_pointer f.payload noted (frame_counted d)
        sync carries)

-- A wanted frame that follows the last one of its channel, which is in sync, and carries the next
-- part of a stream of packets: the callback receives, in order, exactly the packets that the frame
-- finishes, fillers excepted; the channel keeps the part that the frame leaves, in sync, with the
-- frame's counter; and no other channel changes.
pub accept_in_sync :
    (d : TmDeframer) (f : TmFrame) (last : ℕ) {ps : List Bytes} {t : Bytes}
    → IsWanted d f
    → (vc_of d f.header.vcid).in_sync ≡ true
    → (vc_of d f.header.vcid).last_count ≡ some last
    → f.header.vc_frame_count ≡ wrapping_succ_u8 last
    → Carries (vc_of d f.header.vcid).pending f.header.first_header_pointer f.payload ps t
    → Outcome d (accept d f) f ps t
accept_in_sync d f last {ps} {t} w sync was next carries =
    let m = note_mc_count f.header.mc_frame_count d in
    let same = (note_mc_same f.header.mc_frame_count d).0 in
    let vc = ap (λ l. get_or l f.header.vcid fresh_vc) same in
    accept_by_vc d f w (
      accept_vc_in_sync m f last (subst (λ l. f.header.vcid < length l) (sym same) w.exists)
        (ap (λ v. v.in_sync) vc ∙ sync) (ap (λ v. v.last_count) vc ∙ was) next
        (subst (λ v. Carries v.pending f.header.first_header_pointer f.payload ps t) (sym vc)
          carries))
