-- ===== src/Diagnose/Order.antt =====
-- The order of the findings of crates/gateway/src/diagnose.rs.
use chronus_gateway.Prelude.{
  ◌≤◌, ◌≡◌, refl, ap, ◌∙◌, max, List, [], ◌∷◌, ◌++◌, ltb, All, All-imp, arith, Bool-cases, inl, inr,
  not_ltb→le, ltb→lt,
}
use mathlib.Core.List.{Perm}
use mathlib.Core.List.Perm
use chronus_gateway.Diagnose.{Diagnosis, rank, greatest, insert, sort}

-- The most severe finding first.
abbrev pub Sorted : List Diagnosis → Type 0
Sorted [] = Unit
Sorted (d ∷ ds) = All (λ e. rank e.severity ≤ rank d.severity) ds × Sorted ds

module _ (P : Diagnosis → Type 0) where
  All-insert : (d : Diagnosis) (ds : List Diagnosis) → P d → All P ds → All P (insert d ds)
  All-insert d [] p a = (p, tt)
  All-insert d (e ∷ es) p a = elim (Bool-cases (ltb (rank d.severity) (rank e.severity))) [
    | inl less ↦ rw less (a.0, All-insert d es p a.1)
    | inr more ↦ rw more (p, a)
  ]

insert-Sorted : (d : Diagnosis) (ds : List Diagnosis) → Sorted ds → Sorted (insert d ds)
insert-Sorted d [] s = (tt, tt)
insert-Sorted d (e ∷ es) s = elim (Bool-cases (ltb (rank d.severity) (rank e.severity))) [
  | inl less ↦
      let below = ltb→lt (rank d.severity) (rank e.severity) less in
      rw less (All-insert _ d es (omega arith) s.0, insert-Sorted d es s.1)
  | inr more ↦
      let above = not_ltb→le (rank d.severity) (rank e.severity) more in
      rw more ((above, All-imp _ es (λ z h. omega (arith, above, h)) s.0), s)
]

pub sort-Sorted : (ds : List Diagnosis) → Sorted (sort ds)
unfolding sort
sort-Sorted [] = tt
sort-Sorted (d ∷ ds) = insert-Sorted d (sort ds) (sort-Sorted ds)

insert-Perm : (d : Diagnosis) (ds : List Diagnosis) → Perm (insert d ds) (d ∷ ds)
insert-Perm d [] = Perm.refl (d ∷ [])
insert-Perm d (e ∷ es) = elim (Bool-cases (ltb (rank d.severity) (rank e.severity))) [
  | inl less ↦ rw less (Perm.trans (Perm.cons e (insert-Perm d es)) (Perm.swap d e es))
  | inr more ↦ rw more (Perm.refl (d ∷ e ∷ es))
]

pub sort-Perm : (ds : List Diagnosis) → Perm (sort ds) ds
unfolding sort
sort-Perm [] = Perm.refl []
sort-Perm (d ∷ ds) = Perm.trans (insert-Perm d (sort ds)) (Perm.cons d (sort-Perm ds))

greatest-insert :
    (d : Diagnosis) (ds : List Diagnosis)
    → greatest (insert d ds) ≡ max (rank d.severity) (greatest ds)
greatest-insert d [] = refl
greatest-insert d (e ∷ es) = elim (Bool-cases (ltb (rank d.severity) (rank e.severity))) [
  | inl less ↦ rw less (omega (arith, greatest-insert d es))
  | inr more ↦ rw more
]

pub greatest-sort : (ds : List Diagnosis) → greatest (sort ds) ≡ greatest ds
unfolding sort
greatest-sort [] = refl
greatest-sort (d ∷ ds) = greatest-insert d (sort ds) ∙ ap (max (rank d.severity)) (greatest-sort ds)

pub greatest-append :
    (ds es : List Diagnosis) → greatest (ds ++ es) ≡ max (greatest ds) (greatest es)
greatest-append [] es = omega arith
greatest-append (d ∷ ds) es = omega (arith, greatest-append ds es)
