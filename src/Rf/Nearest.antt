-- ===== src/Rf/Nearest.antt =====
-- `RfStore::lookup` finds the nearest sample inside the window.
use chronus_gateway.Prelude.{
  ℕ, ◌≤◌, ◌<◌, ◌≡◌, refl, ap, sym, subst, ◌∙◌, Bool, true, false, Option, none, some, List, [], ◌∷◌,
  ◌++◌, ltb, leb, All, All-append, All-imp, append-nil, append_assoc, Bool-cases, inl, inr, arith,
  if◌then◌else◌,
}
use chronus_gateway.Integers.{ℤ, distance}
use chronus_gateway.Rf.{RfMetadata, Entry, RfStore, nearest, nearer, meta_of, lookup}

module _ {F : Type 0} where
  -- The sample `m`, at distance `d` of `t`, is the first of the nearest of `es`, inside the window.
  pub record IsNearest (t : ℤ) (window : ℕ) (es : List (Entry F)) (d : ℕ) (m : RfMetadata F)
      : Type 0 where
    pub before : List (Entry F)
    pub entry : Entry F
    pub after : List (Entry F)
    pub splits : es ≡ before ++ entry ∷ after
    pub meta_is : entry.meta ≡ m
    pub distance_is : distance entry.t t ≡ d
    pub inside : d ≤ window
    pub before_farther : All (λ (e : Entry F). d < distance e.t t) before
    pub after_no_nearer : All (λ (e : Entry F). d ≤ distance e.t t) after

  -- What the search knows of the entries that it has seen.
  abbrev pub Best : ℤ → ℕ → List (Entry F) → Option (ℕ × RfMetadata F) → Type 0
  Best t window es none = All (λ (e : Entry F). window < distance e.t t) es
  Best t window es (some (d, m)) = IsNearest t window es d m

  -- An entry that is no nearer changes nothing.
  keep-IsNearest :
      (t : ℤ) (window : ℕ) (es : List (Entry F)) (d : ℕ) (m : RfMetadata F) (e : Entry F)
      → IsNearest t window es d m
      → d ≤ distance e.t t
      → IsNearest t window (es ++ e ∷ []) d m
  keep-IsNearest t window es d m e n far = record {
    before = n.before;
    entry = n.entry;
    after = n.after ++ e ∷ [];
    splits = ap (λ l. l ++ e ∷ []) n.splits ∙ append_assoc n.before (n.entry ∷ n.after) (e ∷ []);
    meta_is = n.meta_is;
    distance_is = n.distance_is;
    inside = n.inside;
    before_farther = n.before_farther;
    after_no_nearer = All-append _ n.after (e ∷ []) n.after_no_nearer (far, tt);
  }

  -- An entry inside the window that is nearer than all before it.
  take-IsNearest :
      (t : ℤ) (window : ℕ) (es : List (Entry F)) (e : Entry F)
      → distance e.t t ≤ window
      → All (λ (x : Entry F). distance e.t t < distance x.t t) es
      → IsNearest t window (es ++ e ∷ []) (distance e.t t) e.meta
  take-IsNearest t window es e close far = record {
    before = es;
    entry = e;
    after = [];
    splits = refl;
    meta_is = refl;
    distance_is = refl;
    inside = close;
    before_farther = far;
    after_no_nearer = tt;
  }

  All-farther :
      (t : ℤ) (window : ℕ) (es : List (Entry F)) (d : ℕ) (m : RfMetadata F) (k : ℕ)
      → IsNearest t window es d m
      → k < d
      → All (λ (x : Entry F). k < distance x.t t) es
  All-farther t window es d m k n less =
      subst (λ l. All (λ (x : Entry F). k < distance x.t t) l) (sym n.splits)
        (All-append _ n.before (n.entry ∷ n.after)
          (All-imp _ n.before (λ x h. omega arith) n.before_farther)
          (omega (arith, n.distance_is), All-imp _ n.after (λ x h. omega arith) n.after_no_nearer))

  nearer-Best :
      (t : ℤ) (window : ℕ) (es : List (Entry F)) (best : Option (ℕ × RfMetadata F)) (e : Entry F)
      → Best t window es best
      → distance e.t t ≤ window
      → Best t window (es ++ e ∷ []) (nearer best (distance e.t t) e.meta)
  nearer-Best t window es none e b close =
      take-IsNearest t window es e close (All-imp _ es (λ x h. omega arith) b)
  nearer-Best t window es (some (d, m)) e b close = elim (Bool-cases (ltb (distance e.t t) d)) [
    | inl less ↦ rw less (
        take-IsNearest t window es e close
          (All-farther t window es d m (distance e.t t) b (ground arith)))
    | inr far ↦ rw far (keep-IsNearest t window es d m e b (ground arith))
  ]

  outside-Best :
      (t : ℤ) (window : ℕ) (es : List (Entry F)) (best : Option (ℕ × RfMetadata F)) (e : Entry F)
      → Best t window es best
      → window < distance e.t t
      → Best t window (es ++ e ∷ []) best
  outside-Best t window es none e b far = All-append _ es (e ∷ []) b (far, tt)
  outside-Best t window es (some (d, m)) e b far =
      keep-IsNearest t window es d m e b (omega (arith, b.inside))

  nearest-Best :
      (t : ℤ) (window : ℕ) (es seen : List (Entry F)) (best : Option (ℕ × RfMetadata F))
      → Best t window seen best
      → Best t window (seen ++ es) (nearest t window es best)
  unfolding nearest
  nearest-Best t window [] seen best b = rw (append-nil seen) b
  nearest-Best t window (e ∷ es) seen best b =
      let close = leb (distance e.t t) window in
      elim (Bool-cases close) [
        | inl c ↦ rw c (
            subst (λ l. Best t window l (nearest t window es (nearer best (distance e.t t) e.meta)))
              (append_assoc seen (e ∷ []) es)
              (nearest-Best t window es (seen ++ e ∷ []) (nearer best (distance e.t t) e.meta)
                (nearer-Best t window seen best e b (ground arith))))
        | inr c ↦ rw c (
            subst (λ l. Best t window l (nearest t window es best)) (append_assoc seen (e ∷ []) es)
              (nearest-Best t window es (seen ++ e ∷ []) best
                (outside-Best t window seen best e b (ground arith))))
      ]

  -- The answer of a lookup: none when no sample lies in the window, and else the first of the
  -- nearest.
  abbrev pub Answers : ℤ → RfStore F → Option (RfMetadata F) → Type 0
  Answers t r none = All (λ (e : Entry F). r.window < distance e.t t) r.entries
  Answers t r (some m) = (d : ℕ) × IsNearest t r.window r.entries d m

  answer_of :
      (t : ℤ) (r : RfStore F) (best : Option (ℕ × RfMetadata F))
      → Best t r.window r.entries best
      → Answers t r (meta_of best)
  answer_of t r none b = b
  answer_of t r (some (d, m)) b = (d, b)

  -- A lookup in an enabled store finds no sample only when every sample lies outside the window,
  -- and else one inside it that is nearer than all earlier samples and as near as all later ones; it
  -- takes nothing out of the store.
  pub lookup-Answers :
      (t : ℤ) (r : RfStore F)
      → r.enabled ≡ true
      → Answers t r (lookup t r).1 × ((lookup t r).0.entries ≡ r.entries)
  unfolding lookup
  lookup-Answers t r on =
      let best = nearest t r.window r.entries none in
      if_enabled r.enabled _ _ on
        (answer_of t r best (nearest-Best t r.window r.entries [] none tt), refl)
    where
      if_enabled :
          (b : Bool) (x y : RfStore F × Option (RfMetadata F))
          → b ≡ true
          → (Answers t r x.1 × (x.0.entries ≡ r.entries))
          → (Answers t r (if b then x else y).1 × ((if b then x else y).0.entries ≡ r.entries))
      if_enabled true x y e p = p
      if_enabled false x y e p = cc
