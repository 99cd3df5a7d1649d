-- ===== src/Oem/Parse/Close.antt =====
-- The end of a segment of crates/gateway/src/oem.rs: `SegmentBuilder::finish`.
use chronus_gateway.Prelude.{
  ℕ, ◌≤◌, ◌≡◌, ◌≢◌, refl, ap, sym, ◌∙◌, subst, Bool, true, not_ltb→le, Option, none, some, List, [],
  ◌∷◌, ltb, length, IfOk, IfOk-err, IfOk-ok, Bool-cases, Option-cases, inl, inr,
}
use chronus_gateway.Floats.{Float}
use chronus_gateway.Oem.{SegmentBuilder, OemCalls, later, earlier}
use chronus_gateway.Oem.Parse.Segment.{or_else, last_of, close, finish_epochs, finish}
use chronus_gateway.Oem.Parse.Sound.{head_of, BuilderOk, SegmentOk, IsOrder}

pub some-inj : {T : Type 0} {a b : T} → some a ≡ some b → a ≡ b
some-inj h = cc

pub none-some : {T : Type 0} {a : T} → ◌≢◌ {A = Option T} none (some a)
none-some h = cc

later-le : {T : Type 0} {le : T → T → Bool} → IsOrder le → (a b : T) → le b (later le a b) ≡ true
later-le {le = le} o a b = elim (Bool-cases (le a b)) [
  | inl below ↦ rw below (o.reflexive b)
  | inr above ↦ rw above (o.total a b above)
]

earlier-le :
    {T : Type 0} {le : T → T → Bool} → IsOrder le → (a b : T) → le (earlier le a b) b ≡ true
earlier-le {le = le} o a b = elim (Bool-cases (le a b)) [
  | inl below ↦ rw (below, below)
  | inr above ↦ rw above (o.reflexive b)
]

module _ {T F D C : Type 0} (fl : Float F) (calls : OemCalls T F D C)
    (o : IsOrder calls.le_time) where
  close-SegmentOk :
      (segment : ℕ) (first last : T) (b : SegmentBuilder T F)
      → BuilderOk calls.le_time b
      → 2 ≤ length b.states
      → head_of b.epochs ≡ some first
      → last_of b.epochs ≡ some last
      → IfOk (SegmentOk calls.le_time) (close fl calls segment first last b)
  close-SegmentOk segment first last b v two head end =
      let start = later calls.le_time (or_else b.useable_start b.start) first in
      let stop = earlier calls.le_time (or_else b.useable_stop b.stop) last in
      elim (Bool-cases (calls.le_time stop start)) [
        | inl none_left ↦ rw none_left (IfOk-err _ _)
        | inr some_left ↦ rw some_left (
            IfOk-ok _ _ (record {
              two_states = two;
              same_length = v.same_length;
              increasing = v.increasing;
              degree_low = v.degree_low;
              degree_high = v.degree_high;
              not_empty = some_left;
              after_first = λ t e.
                  subst (λ u. calls.le_time u start ≡ true) (some-inj (sym head ∙ e))
                    (later-le o (or_else b.useable_start b.start) first);
              before_last = λ t e.
                  subst (λ u. calls.le_time stop u ≡ true) (some-inj (sym end ∙ e))
                    (earlier-le o (or_else b.useable_stop b.stop) last);
            }))
      ]

  finish_epochs-SegmentOk :
      (segment : ℕ) (epochs : List T) (b : SegmentBuilder T F)
      → BuilderOk calls.le_time b
      → 2 ≤ length b.states
      → b.epochs ≡ epochs
      → IfOk (SegmentOk calls.le_time) (finish_epochs fl calls segment epochs b)
  finish_epochs-SegmentOk segment [] b v two same = IfOk-err _ _
  finish_epochs-SegmentOk segment (first ∷ more) b v two same =
      elim (Option-cases (last_of (first ∷ more))) [
        | inl e ↦ rw (e, finish_epochs) (IfOk-err _ _)
        | inr (last, e) ↦
            rw (e, finish_epochs)
              (close-SegmentOk segment first last b v two (ap head_of same) (ap last_of same ∙ e))
      ]

  pub finish-SegmentOk :
      (segment : ℕ) (b : SegmentBuilder T F)
      → BuilderOk calls.le_time b
      → IfOk (SegmentOk calls.le_time) (finish fl calls segment b)
  unfolding finish
  finish-SegmentOk segment b v = elim (Bool-cases (ltb (length b.states) 2)) [
    | inl short ↦ rw short (IfOk-err _ _)
    | inr long ↦
        rw long
          (finish_epochs-SegmentOk segment b.epochs b v (not_ltb→le (length b.states) 2 long) refl)
  ]
