-- ===== src/Frames/Stream/Marker.antt =====
-- `find_asm` finds the first sync marker, and how that changes when more bytes arrive.
use mathlib.Core.Option
use chronus_gateway.Prelude.{
  ℕ, zero, suc, ◌+◌, ◌≤◌, ◌<◌, ◌≡◌, refl, ap, sym, ◌∙◌, true, false, Option, none, some, [], ◌∷◌,
  ◌++◌, length, drop, arith, Bool-cases, Option-cases, ◌⊎◌, inl, inr,
}
use chronus_gateway.Words.{Bytes}
use chronus_gateway.Frames.Stream.{starts_asm, find_asm}

pub starts_asm-length : (r : Bytes) → starts_asm r ≡ true → 4 ≤ length r
unfolding starts_asm
starts_asm-length (a ∷ b ∷ c ∷ d ∷ r) h = omega arith
starts_asm-length _ h = cc

pub starts_asm-append : (r x : Bytes) → 4 ≤ length r → starts_asm (r ++ x) ≡ starts_asm r
unfolding starts_asm
starts_asm-append (a ∷ b ∷ c ∷ d ∷ r) x h = refl
starts_asm-append _ x h = absurd (omega arith)

-- What `find_asm` returns: the first place at which the marker stands.
pub record IsFirst (r : Bytes) (k : ℕ) : Type 0 where
  pub fits : k + 4 ≤ length r
  pub stands : starts_asm (drop k r) ≡ true
  pub none_before : (j : ℕ) → j < k → starts_asm (drop j r) ≡ false

find_asm-cons :
    (b : ℕ) (bs : Bytes) {k : ℕ}
    → find_asm (b ∷ bs) ≡ some k
    → ((k ≡ 0) × (starts_asm (b ∷ bs) ≡ true))
      ⊎ ((m : ℕ) × (k ≡ suc m) × (starts_asm (b ∷ bs) ≡ false) × (find_asm bs ≡ some m))
unfolding find_asm
find_asm-cons b bs {k} e = elim (Bool-cases (starts_asm (b ∷ bs))) [
  | inl here ↦ inl (ground arith, here)
  | inr later ↦ elim (Option-cases (find_asm bs)) [
    | inl missing ↦ absurd (ground arith)
    | inr (m, found) ↦ inr (m, ground arith, later, found)
  ]
]

find_asm-cons_none :
    (b : ℕ) (bs : Bytes)
    → find_asm (b ∷ bs) ≡ none
    → (starts_asm (b ∷ bs) ≡ false) × (find_asm bs ≡ none)
unfolding find_asm
find_asm-cons_none b bs e = elim (Bool-cases (starts_asm (b ∷ bs))) [
  | inl here ↦ absurd (ground arith)
  | inr later ↦ (later, ground arith)
]

find_asm-cons_later :
    (b : ℕ) (bs : Bytes)
    → starts_asm (b ∷ bs) ≡ false
    → find_asm (b ∷ bs) ≡ Option.map suc (find_asm bs)
unfolding find_asm
find_asm-cons_later b bs later = rw later

pub find_asm_here : (r : Bytes) → starts_asm r ≡ true → find_asm r ≡ some 0
unfolding find_asm
find_asm_here [] h = absurd (omega (arith, starts_asm-length [] h))
find_asm_here (b ∷ bs) h = rw h

-- `find_asm` returns the first place at which the marker stands whole.
pub find_asm-IsFirst : (r : Bytes) (k : ℕ) → find_asm r ≡ some k → IsFirst r k
unfolding find_asm
find_asm-IsFirst [] k e = cc
find_asm-IsFirst (b ∷ bs) zero e = elim (find_asm-cons b bs e) [
  | inl (_, here) ↦ record {
    fits = starts_asm-length (b ∷ bs) here;
    stands = here;
    none_before = λ j h. elim h [ ];
  }
  | inr (m, z, _, _) ↦ absurd (omega arith)
]
find_asm-IsFirst (b ∷ bs) (suc k) e = elim (find_asm-cons b bs e) [
  | inl (z, _) ↦ absurd (omega arith)
  | inr (m, same, later, found) ↦
      let first = find_asm-IsFirst bs k (found ∙ ap some (omega arith)) in
      record {
        fits = omega (arith, first.fits);
        stands = first.stands;
        none_before = elim [ zero ↦ λ h. later | suc j ↦ λ h. first.none_before j (omega arith) ];
      }
]

-- It finds nothing exactly when the marker stands nowhere.
pub find_asm-none : (r : Bytes) → find_asm r ≡ none → (j : ℕ) → starts_asm (drop j r) ≡ false
unfolding starts_asm
find_asm-none [] e zero = refl
find_asm-none [] e (suc j) = refl
find_asm-none (b ∷ bs) e zero = (find_asm-cons_none b bs e).0
find_asm-none (b ∷ bs) e (suc j) = find_asm-none bs (find_asm-cons_none b bs e).1 j

-- A marker that is found stays the first when more bytes follow.
pub find_asm-append : (r x : Bytes) (k : ℕ) → find_asm r ≡ some k → find_asm (r ++ x) ≡ some k
find_asm-append [] x k e = absurd (omega (arith, (find_asm-IsFirst [] k e).fits))
find_asm-append (b ∷ bs) x k e = elim (find_asm-cons b bs e) [
  | inl (z, here) ↦
      find_asm_here _ (starts_asm-append (b ∷ bs) x (starts_asm-length _ here) ∙ here)
      ∙ ap some (sym z)
  | inr (m, s, later, found) ↦
      let first = find_asm-IsFirst bs m found in
      find_asm-cons_later b (bs ++ x)
        (starts_asm-append (b ∷ bs) x (omega (arith, first.fits)) ∙ later)
      ∙ ap (Option.map suc) (find_asm-append bs x m found)
      ∙ ap some (sym s)
]

map_zero_add : (o : Option ℕ) → o ≡ Option.map (λ j. 0 + j) o
map_zero_add none = refl
map_zero_add (some j) = ap some (omega arith)

map-suc_add :
    (n : ℕ) (o : Option ℕ)
    → Option.map suc (Option.map (λ j. n + j) o) ≡ Option.map (λ j. suc n + j) o
map-suc_add n none = refl
map-suc_add n (some j) = ap some (omega arith)

-- Where no marker is found, one that becomes whole with more bytes begins in the last three.
pub find_asm-append_none :
    (n : ℕ) (r x : Bytes)
    → find_asm r ≡ none
    → (n ≡ 0) ⊎ (n + 3 ≤ length r)
    → find_asm (r ++ x) ≡ Option.map (λ j. n + j) (find_asm (drop n r ++ x))
find_asm-append_none zero r x e h = map_zero_add (find_asm (r ++ x))
find_asm-append_none (suc n) [] x e h = absurd (omega arith)
find_asm-append_none (suc n) (b ∷ bs) x e h =
    let (later, missing) = find_asm-cons_none b bs e in
    find_asm-cons_later b (bs ++ x) (starts_asm-append (b ∷ bs) x (omega arith) ∙ later)
    ∙ ap (Option.map suc) (find_asm-append_none n bs x missing (inr (omega arith)))
    ∙ map-suc_add n (find_asm (drop n bs ++ x))
