-- ===== src/Frames/Link/Split.antt =====
-- A row of packets cut at any octet: the packets before the cut, the part of one that the cut
-- leaves, and the packets behind it.
use chronus_gateway.Prelude.{
  concat, ◌<◌, ◌≤◌, ◌≡◌, refl, ap, sym, ◌∙◌, subst, inl, inr, List, [], ◌∷◌, ◌++◌, length, take,
  drop, All, arith, take-append-drop, take-append, append_assoc, take-length_append,
  drop-length_append, drop-append,
}
use native.Mathlib.Decide.{dec_lt}
use chronus_gateway.Words.{Bytes}
use chronus_gateway.Frames.Deframer.{declared_len, packet_version, packet_header_len}
use chronus_gateway.Frames.Deframer.Drain.{
  IsPacket, IsPartial, declared_len-append, packet_version-append,
}

-- The octets `t` are a proper part of the first of the packets, or there are neither.
abbrev pub Begins : Bytes → List Bytes → Type 0
Begins t [] = t ≡ []
Begins t (p ∷ _) = length t < length p

-- The octets `x`, and `y` behind them, against the row of packets that they form.
pub record Cut (x y : Bytes) (ps : List Bytes) : Type 0 where
  pub done : List Bytes
  pub left : List Bytes
  pub rest : Bytes
  pub packets : ps ≡ done ++ left
  pub before : x ≡ concat done ++ rest
  pub behind : rest ++ y ≡ concat left
  pub begins : Begins rest left

Cut-cons : (p : Bytes) {x y : Bytes} {ps : List Bytes} → Cut x y ps → Cut (p ++ x) y (p ∷ ps)
Cut-cons p c = record {
  done = p ∷ c.done;
  left = c.left;
  rest = c.rest;
  packets = ap (◌∷◌ p) c.packets;
  before = ap (◌++◌ p) c.before ∙ sym (append_assoc p (concat c.done) c.rest);
  behind = c.behind;
  begins = c.begins;
}

-- `x ++ y ≡ p ++ z` with `x` at least as long as `p`: `p` is the front of `x`.
front-append :
    (x y p z : Bytes)
    → x ++ y ≡ p ++ z
    → length p ≤ length x
    → (x ≡ p ++ drop (length p) x) × (drop (length p) x ++ y ≡ z)
front-append x y p z e h =
    let front : take (length p) x ≡ p =
      sym (take-append (length p) x y h)
      ∙ ap (take (length p)) e
      ∙ take-length_append (length p) p z refl in
    (
      sym (take-append-drop (length p) x) ∙ ap (λ f. f ++ drop (length p) x) front,
      sym (drop-append (length p) x y h)
          ∙ ap (drop (length p)) e
          ∙ drop-length_append (length p) p z refl,
    )

pub cut : (x y : Bytes) (ps : List Bytes) → x ++ y ≡ concat ps → Cut x y ps
cut [] y [] e = record {
  done = [];
  left = [];
  rest = [];
  packets = refl;
  before = refl;
  behind = e;
  begins = refl;
}
cut (b ∷ x) y [] e = absurd (omega (arith, ap length e))
cut x y (p ∷ ps) e = elim (dec_lt (length x) (length p)) [
  | yes short ↦ record {
    done = [];
    left = p ∷ ps;
    rest = x;
    packets = refl;
    before = refl;
    behind = e;
    begins = short;
  }
  | no long ↦
      let f = front-append x y p (concat ps) e (omega arith) in
      subst (λ z. Cut z y (p ∷ ps)) (sym f.0) (Cut-cons p (cut (drop (length p) x) y ps f.1))
]

-- A proper part of a packet, from its first octet on, is what the deframer waits with.
part-IsPartial : (t u p : Bytes) → IsPacket p → t ++ u ≡ p → length t < length p → IsPartial t
part-IsPartial t u p w e l = elim (dec_lt (length t) packet_header_len) [
  | yes short ↦ inl short
  | no header ↦
      let long : packet_header_len ≤ length t = omega arith in
      let version = sym (packet_version-append t u long) ∙ ap packet_version e ∙ w.version_zero in
      let declared = sym (declared_len-append t u long) ∙ ap declared_len e ∙ sym w.whole in
      inr (version, long, omega (arith, declared))
]

pub Begins-IsPartial :
    (t y : Bytes) (ps : List Bytes)
    → All IsPacket ps
    → t ++ y ≡ concat ps
    → Begins t ps
    → IsPartial t
Begins-IsPartial t y [] w e b = inl (omega (arith, ap length b))
Begins-IsPartial t y (p ∷ ps) w e b =
    let front : t ≡ take (length t) p =
      sym (take-length_append (length t) t y refl)
      ∙ ap (take (length t)) e
      ∙ take-append (length t) p (concat ps) (omega arith) in
    part-IsPartial t (drop (length t) p) p w.0
      (ap (λ f. f ++ drop (length t) p) front ∙ take-append-drop (length t) p) b
