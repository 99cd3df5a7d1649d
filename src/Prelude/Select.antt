-- ===== src/Prelude/Select.antt =====
-- Selecting, reversing and keeping the newest elements of a list.
use Prim.Native.Nat.{ℕ, ◌-◌, ◌≤◌, ◌<◌, min}
use mathlib.Core.Path.{◌≡◌, refl, ap, sym, ◌∙◌}
use mathlib.Core.Bool.{Bool, true, false}
use mathlib.Core.List.{List, [], ◌∷◌, ◌++◌, append-nil, append_assoc}
use native.Mathlib.Omega.{arith}
use chronus_gateway.Prelude.Tests.{if◌then◌else◌, Bool-cases, leb}
use chronus_gateway.Prelude.Lists.{
  length, take, drop, length-append, length-drop, drop-append, take-append-drop, drop-drop,
  drop-length_append,
}
use mathlib.Core.Logic.{inl, inr}

module _ {ℓ} {A : Type ℓ} where
  abbrev pub filter : (A → Bool) → List A → List A
  filter p [] = []
  filter p (x ∷ xs) = if p x then x ∷ filter p xs else filter p xs

  abbrev pub reverse : List A → List A
  reverse [] = []
  reverse (x ∷ xs) = reverse xs ++ x ∷ []

  -- The newest `n` elements of a list in order of arrival.
  abbrev pub newest : ℕ → List A → List A
  newest n xs = drop (length xs - n) xs

  pub filter-append :
      (p : A → Bool) (xs ys : List A) → filter p (xs ++ ys) ≡ filter p xs ++ filter p ys
  filter-append p [] ys = refl
  filter-append p (x ∷ xs) ys = elim (Bool-cases (p x)) [
    | inl e ↦ rw e (ap (◌∷◌ x) (filter-append p xs ys))
    | inr e ↦ rw e (filter-append p xs ys)
  ]

  pub reverse-append : (xs ys : List A) → reverse (xs ++ ys) ≡ reverse ys ++ reverse xs
  reverse-append [] ys = sym (append-nil (reverse ys))
  reverse-append (x ∷ xs) ys =
      ap (λ l. l ++ x ∷ []) (reverse-append xs ys) ∙ append_assoc (reverse ys) (reverse xs) (x ∷ [])

  pub reverse-reverse : (xs : List A) → reverse (reverse xs) ≡ xs
  reverse-reverse [] = refl
  reverse-reverse (x ∷ xs) = reverse-append (reverse xs) (x ∷ []) ∙ ap (◌∷◌ x) (reverse-reverse xs)

  pub length-reverse : (xs : List A) → length (reverse xs) ≡ length xs
  length-reverse [] = refl
  length-reverse (x ∷ xs) = omega (arith, length-append (reverse xs) (x ∷ []), length-reverse xs)

  pub filter-reverse : (p : A → Bool) (xs : List A) → filter p (reverse xs) ≡ reverse (filter p xs)
  filter-reverse p [] = refl
  filter-reverse p (x ∷ xs) = elim (Bool-cases (p x)) [
    | inl e ↦
        filter-append p (reverse xs) (x ∷ []) ∙ (rw e (ap (λ l. l ++ x ∷ []) (filter-reverse p xs)))
    | inr e ↦
        filter-append p (reverse xs) (x ∷ [])
        ∙ (rw e (append-nil (filter p (reverse xs)) ∙ filter-reverse p xs))
  ]

  reverse-take : (n : ℕ) (ys : List A) → reverse (take n ys) ≡ newest n (reverse ys)
  reverse-take n ys =
      let parts =
        sym (reverse-append (take n ys) (drop n ys)) ∙ ap reverse (take-append-drop n ys) in
      let size = length-reverse ys in
      let old = length-reverse (drop n ys) in
      sym (
        drop-length_append (length (reverse ys) - n) (reverse (drop n ys)) (reverse (take n ys))
          (omega (arith, size, old, length-drop n ys)))
      ∙ ap (drop (length (reverse ys) - n)) parts

  -- The first `n` of the reversed list, put back in order, are the newest `n`.
  pub reverse-take-reverse : (n : ℕ) (xs : List A) → reverse (take n (reverse xs)) ≡ newest n xs
  reverse-take-reverse n xs = reverse-take n (reverse xs) ∙ ap (newest n) (reverse-reverse xs)

  -- Adding one element behind the newest `n` and forgetting the oldest is keeping the newest `n` of
  -- the longer list.
  pub newest-newest_append :
      (n : ℕ) (xs : List A) (x : A) → newest n (newest n xs ++ x ∷ []) ≡ newest n (xs ++ x ∷ [])
  newest-newest_append n xs x =
      let kept = newest n xs in
      let size = length-drop (length xs - n) xs in
      let longer = length-append kept (x ∷ []) in
      let all = length-append xs (x ∷ []) in
      let cut = drop-append (length xs - n) xs (x ∷ []) (omega arith) in
      ap (drop (length (kept ++ x ∷ []) - n)) (sym cut)
      ∙ sym (drop-drop (length xs - n) (length (kept ++ x ∷ []) - n) (xs ++ x ∷ []))
      ∙ ap (λ (k : ℕ). drop k (xs ++ x ∷ [])) (omega (arith, size, longer, all))

  pub length-newest : (n : ℕ) (xs : List A) → length (newest n xs) ≡ min n (length xs)
  length-newest n xs = omega (arith, length-drop (length xs - n) xs)

  -- A bounded queue that gives up its oldest element when full keeps the newest.
  pub kept-newest :
      (c : ℕ) (xs : List A) (x : A)
      → 0 < c
      → length xs ≤ c
      → (b : Bool) → leb c (length xs) ≡ b
      → (if b then drop 1 xs ++ x ∷ [] else xs ++ x ∷ []) ≡ newest c (xs ++ x ∷ [])
  kept-newest c xs x pos le true over =
      let size = length-append xs (x ∷ []) in
      let one : 1 ≡ length (xs ++ x ∷ []) - c = ground arith in
      sym (drop-append 1 xs (x ∷ []) (ground arith)) ∙ ap (λ (k : ℕ). drop k (xs ++ x ∷ [])) one
  kept-newest c xs x pos le false over =
      let size = length-append xs (x ∷ []) in
      let none_over : 0 ≡ length (xs ++ x ∷ []) - c = ground arith in
      ap (λ (k : ℕ). drop k (xs ++ x ∷ [])) none_over
