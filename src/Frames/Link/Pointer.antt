-- ===== src/Frames/Link/Pointer.antt =====
-- The First Header Pointer that the framer writes, against the row of packets in its queue: what
-- one data field carries, as the deframer reads it.
use chronus_gateway.Prelude.{
  concat, ℕ, ◌+◌, ◌-◌, ◌<◌, ◌≤◌, ◌≡◌, refl, ap, sym, ◌∙◌, subst, true, List, [], ◌∷◌, ◌++◌, length,
  ltb, take, drop, All, All-append_left, All-append_right, arith, length-append, length-take,
  take-append-drop, take-length_append, drop-length_append, append_assoc, append-nil, lt→ltb,
  le→not_ltb,
}
use native.Mathlib.Decide.{dec_lt}
use chronus_gateway.Words.{Bytes}
use chronus_gateway.Frames.Deframer.{fhp_no_packet_start, fhp_idle}
use chronus_gateway.Frames.Deframer.Drain.{IsPacket, IsPartial, IsPacket-length}
use chronus_gateway.Frames.Deframer.Reassembly.{Carries, continues, starts}
use chronus_gateway.Frames.Builder.{pop_before}
use chronus_gateway.Frames.Link.Split.{Begins, Cut, cut, Begins-IsPartial}

-- The stream offsets of packets that stand one behind another from offset `e` on.
abbrev pub offsets : ℕ → List Bytes → List ℕ
offsets e [] = []
offsets e (p ∷ ps) = e ∷ offsets (e + length p) ps

pub pop_before_twice :
    (lo hi : ℕ) (ss : List ℕ) → lo ≤ hi → pop_before hi (pop_before lo ss) ≡ pop_before hi ss
unfolding pop_before
pop_before_twice lo hi [] h = refl
pop_before_twice lo hi (s ∷ ss) h = elim (dec_lt s lo) [
  | yes below ↦ rw (lt→ltb s lo below, lt→ltb s hi (omega arith)) (pop_before_twice lo hi ss h)
  | no above ↦ rw (le→not_ltb s lo (omega arith))
]

pub offsets-append :
    (e : ℕ) (ps qs : List Bytes)
    → offsets e (ps ++ qs) ≡ offsets e ps ++ offsets (e + length (concat ps)) qs
offsets-append e [] qs = ap (λ n. offsets n qs) (omega arith)
offsets-append e (p ∷ ps) qs = ap (◌∷◌ e) (
    offsets-append (e + length p) ps qs
    ∙ ap (λ n. offsets (e + length p) ps ++ offsets n qs)
        (omega (arith, length-append p (concat ps))))

pub pop_before-append :
    (lo : ℕ) (ss more : List ℕ)
    → pop_before lo (ss ++ more) ≡ pop_before lo (pop_before lo ss ++ more)
unfolding pop_before
pop_before-append lo [] more = refl
pop_before-append lo (s ∷ ss) more = elim (dec_lt s lo) [
  | yes below ↦ rw (lt→ltb s lo below) (pop_before-append lo ss more)
  | no above ↦ let stays = le→not_ltb s lo (omega arith) in rw (stays, stays)
]

-- Packets that end by the offset `lo` leave no start behind.
pub pop_before-offsets :
    (lo e : ℕ) (done left : List Bytes)
    → All IsPacket done
    → e + length (concat done) ≤ lo
    → pop_before lo (offsets e (done ++ left))
      ≡ pop_before lo (offsets (e + length (concat done)) left)
unfolding pop_before
pop_before-offsets lo e [] left w h = ap (λ n. pop_before lo (offsets n left)) (omega arith)
pop_before-offsets lo e (p ∷ done) left w h =
    let size = length-append p (concat done) in
    let below : ltb e lo ≡ true = lt→ltb e lo (omega (arith, IsPacket-length p w.0)) in
    rw below (
      pop_before-offsets lo (e + length p) done left w.1 (omega arith)
      ∙ ap (λ n. pop_before lo (offsets n left)) (omega arith))

-- One data field of the row `ps`, whose first `length t` octets are sent: `payload` is the field,
-- and `queued` what stays behind it.
pub record Sent (t : Bytes) (fhp : ℕ) (payload queued : Bytes) (ps : List Bytes) : Type 0 where
  pub done : List Bytes
  pub left : List Bytes
  pub rest : Bytes
  pub packets : ps ≡ done ++ left
  pub before : t ++ payload ≡ concat done ++ rest
  pub behind : rest ++ queued ≡ concat left
  pub begins : Begins rest left
  pub partial : IsPartial rest
  pub carries : Carries t fhp payload done rest
  pub aligned : t ≡ [] → fhp ≡ 0

same_front : (x y p z : Bytes) → x ++ y ≡ p ++ z → length x ≡ length p → (x ≡ p) × (y ≡ z)
same_front x y p z e h = (
  sym (take-length_append (length p) x y (sym h))
      ∙ ap (take (length p)) e
      ∙ take-length_append (length p) p z refl,
  sym (drop-length_append (length p) x y (sym h))
      ∙ ap (drop (length p)) e
      ∙ drop-length_append (length p) p z refl,
)

module _ (t payload queued : Bytes) (ps : List Bytes) (w : All IsPacket ps) where
  Cut-IsPartial : {x : Bytes} (c : Cut x queued ps) → IsPartial c.rest
  Cut-IsPartial c =
      Begins-IsPartial c.rest queued c.left
        (All-append_right IsPacket c.done c.left (subst (All IsPacket) c.packets w)) c.behind
        c.begins

  -- A field in which no packet starts.
  pub Sent-continues :
      0 < length t
      → (t ++ payload) ++ queued ≡ concat ps
      → Sent t fhp_no_packet_start payload queued ps
  Sent-continues h e =
      let c = cut (t ++ payload) queued ps e in
      let part = Cut-IsPartial c in
      record {
        done = c.done;
        left = c.left;
        rest = c.rest;
        packets = c.packets;
        before = c.before;
        behind = c.behind;
        begins = c.begins;
        partial = part;
        carries =
            continues refl
              (All-append_left IsPacket c.done c.left (subst (All IsPacket) c.packets w)) c.before
              part;
        aligned = λ empty. absurd (omega (arith, ap length empty));
      }

-- A field that ends the packet `p` and in which the next one starts.
pub Sent-starts :
    (t payload queued p : Bytes) (ps : List Bytes)
    → All IsPacket (p ∷ ps)
    → 0 < length t
    → length t < length p
    → length p - length t < length payload
    → length payload < fhp_idle
    → (t ++ payload) ++ queued ≡ p ++ concat ps
    → Sent t (length p - length t) payload queued (p ∷ ps)
Sent-starts t payload queued p ps w some_sent part inside small e =
    let m = length p - length t in
    let split = take-append-drop m payload in
    let size : length (t ++ take m payload) ≡ length p =
      omega (arith, length-append t (take m payload), length-take m payload) in
    let row : (t ++ take m payload) ++ (drop m payload ++ queued) ≡ p ++ concat ps =
      append_assoc t (take m payload) (drop m payload ++ queued)
      ∙ ap (◌++◌ t) (
          sym (append_assoc (take m payload) (drop m payload) queued) ∙ ap (λ x. x ++ queued) split)
      ∙ sym (append_assoc t payload queued)
      ∙ e in
    let (first, behind) = same_front (t ++ take m payload) _ p (concat ps) row size in
    let c = cut (drop m payload) queued ps behind in
    let after = Cut-IsPartial t payload queued ps w.1 c in
    record {
      done = p ∷ c.done;
      left = c.left;
      rest = c.rest;
      packets = ap (◌∷◌ p) c.packets;
      before =
          ap (◌++◌ t) (sym split)
          ∙ sym (append_assoc t (take m payload) (drop m payload))
          ∙ ap (λ x. x ++ drop m payload) first
          ∙ ap (◌++◌ p) c.before
          ∙ sym (append_assoc p (concat c.done) c.rest);
      behind = c.behind;
      begins = c.begins;
      partial = after;
      carries =
          starts (p ∷ []) c.done inside (omega arith) refl (w.0, tt)
            (All-append_left IsPacket c.done c.left (subst (All IsPacket) c.packets w.1))
            (first ∙ sym (append-nil p)) c.before after;
      aligned = λ empty. absurd (omega (arith, ap length empty));
    }

-- A field at the start of a packet.
pub Sent-aligned :
    (payload queued : Bytes) (ps : List Bytes)
    → All IsPacket ps
    → 0 < length payload
    → payload ++ queued ≡ concat ps
    → Sent [] 0 payload queued ps
Sent-aligned payload queued ps w h e =
    let c = cut payload queued ps e in
    let after = Cut-IsPartial [] payload queued ps w c in
    record {
      done = c.done;
      left = c.left;
      rest = c.rest;
      packets = c.packets;
      before = c.before;
      behind = c.behind;
      begins = c.begins;
      partial = after;
      carries =
          starts [] c.done h (omega arith) refl tt
            (All-append_left IsPacket c.done c.left (subst (All IsPacket) c.packets w)) refl
            c.before after;
      aligned = λ _. refl;
    }
