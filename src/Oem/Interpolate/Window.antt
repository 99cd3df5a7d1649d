-- ===== src/Oem/Interpolate/Window.antt =====
-- The window of states that `interpolate` of crates/gateway/src/oem.rs takes, and the segment that
-- `state_itrf` takes.
use chronus_gateway.Prelude.{
  ℕ, ◌+◌, ◌<◌, ◌≤◌, ◌≡◌, refl, ap, ◌∙◌, Bool, true, false, none, some, List, [], ◌∷◌, ◌++◌, length,
  All, arith, Bool-cases, inl, inr, ◌⊎◌,
}
use chronus_gateway.Floats.{Float}
use chronus_gateway.Oem.{OemSegment, OemCalls}
use chronus_gateway.Oem.Parse.Close.{some-inj}
use chronus_gateway.Oem.Parse.Sound.{head_of, SegmentOk, IsOrder}
use chronus_gateway.Oem.Interpolate.{
  partition_point, window_first, window_size, after_time, first_of, covers, last_covering,
}

-- The window is inside the states, and holds the last state up to the time and the first behind it.
pub record Brackets (after first k n : ℕ) : Type 0 where
  pub inside : first + k ≤ n
  pub from_before : first < after
  pub to_before : after ≤ first + k
  pub to_behind : after < n → after < first + k

window_first-Brackets :
    (after k n : ℕ)
    → 2 ≤ k
    → k ≤ n
    → 0 < after
    → after ≤ n
    → Brackets after (window_first after k n) k n
window_first-Brackets after k n two fits some_before le = record {
  inside = omega arith;
  from_before = omega arith;
  to_before = omega arith;
  to_behind = λ h. omega arith;
}

partition_point-le :
    {A : Type 0} (test : A → Bool) (xs : List A) → partition_point test xs ≤ length xs
partition_point-le test [] = omega arith
partition_point-le test (x ∷ xs) = elim (Bool-cases (test x)) [
  | inl passes ↦ rw passes (omega (arith, partition_point-le test xs))
  | inr fails ↦ rw fails (omega arith)
]

partition_point-pos :
    {A : Type 0} (test : A → Bool) (x : A) (xs : List A)
    → head_of xs ≡ some x
    → test x ≡ true
    → 0 < partition_point test xs
partition_point-pos test x [] h e = cc
partition_point-pos test x (y ∷ xs) h e =
    let passes : test y ≡ true = ap test (some-inj h) ∙ e in rw passes (omega arith)

head_of-some : {A : Type 0} (xs : List A) → 0 < length xs → (x : A) × (head_of xs ≡ some x)
head_of-some [] h = absurd (omega arith)
head_of-some (x ∷ xs) h = (x, refl)

-- The last segment of the list that covers the time.
pub record IsLast {T F D C : Type 0} (fl : Float F) (calls : OemCalls T F D C) (time : T)
    (s : OemSegment T F) (segments : List (OemSegment T F)) : Type 0 where
  pub before : List (OemSegment T F)
  pub behind : List (OemSegment T F)
  pub place : segments ≡ before ++ s ∷ behind
  pub covering : covers fl calls time s ≡ true
  pub none_behind : All (λ z. covers fl calls time z ≡ false) behind

module _ {T F D C : Type 0} (fl : Float F) (calls : OemCalls T F D C) (time : T) where
  pub last_covering-cases :
      (segments : List (OemSegment T F))
      → ((last_covering fl calls time segments ≡ none)
          × All (λ z. covers fl calls time z ≡ false) segments)
        ⊎ ((s : OemSegment T F) × (last_covering fl calls time segments ≡ some s)
            × IsLast fl calls time s segments)
  last_covering-cases [] = inl (refl, tt)
  last_covering-cases (s ∷ segments) = elim (last_covering-cases segments) [
    | inr (z, e, l) ↦ inr (
      z,
      rw e,
      record {
        before = s ∷ l.before;
        behind = l.behind;
        place = ap (◌∷◌ s) l.place;
        covering = l.covering;
        none_behind = l.none_behind;
      },
    )
    | inl (e, a) ↦ elim (Bool-cases (covers fl calls time s)) [
      | inl here ↦ inr (
        s,
        rw (e, here),
        record { before = []; behind = segments; place = refl; covering = here; none_behind = a },
      )
      | inr not_here ↦ inl (rw (e, not_here), (not_here, a))
    ]
  ]

  -- In a well-formed segment that covers the time, the window is good.
  pub window-Brackets :
      (s : OemSegment T F)
      → IsOrder calls.le_time
      → SegmentOk calls.le_time s
      → covers fl calls time s ≡ true
      → Brackets
          (after_time fl calls s time)
          (first_of fl calls s time)
          (window_size fl calls s)
          (length s.states)
  window-Brackets s o v c =
      let (t, first) = head_of-some s.epochs (omega (arith, v.two_states, v.same_length)) in
      let started : calls.le_time s.start time ≡ true = ground (arith, c) in
      let reached = o.transitive t s.start time (v.after_first t first) started in
      let low = v.degree_low in
      let two = v.two_states in
      window_first-Brackets (after_time fl calls s time) (window_size fl calls s) (length s.states)
        (omega arith) (omega arith)
        (partition_point-pos (λ e. calls.le_time e time) t s.epochs first reached)
        (omega (arith, partition_point-le (λ e. calls.le_time e time) s.epochs, v.same_length))
