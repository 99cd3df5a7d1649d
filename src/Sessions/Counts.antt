-- ===== src/Sessions/Counts.antt =====
-- The map of counts behaves as a map.
use chronus_gateway.Prelude.{
  ℕ, ◌-◌, ◌≡◌, ◌≢◌, refl, ap, sym, subst, ◌∙◌, false, Option, none, some, [], ◌∷◌, ◌==◌,
  if◌then◌else◌, Bool-cases, inl, inr, arith,
}
use chronus_gateway.Sessions.{Counts, lookup, insert, remove, unwrap_or, or_insert_zero, release}

lookup-insert_self : (m : Counts) (ip n : ℕ) → lookup (insert m ip n) ip ≡ some n
unfolding lookup insert
lookup-insert_self [] ip n = ground arith
lookup-insert_self ((k, o) ∷ m) ip n = elim (Bool-cases (k == ip)) [
  | inl e ↦ rw (e, e) refl
  | inr e ↦ rw (e, e) (lookup-insert_self m ip n)
]

lookup-insert_ne : (m : Counts) (ip n j : ℕ) → ip ≢ j → lookup (insert m ip n) j ≡ lookup m j
unfolding lookup insert
lookup-insert_ne [] ip n j d = ground arith
lookup-insert_ne ((k, o) ∷ m) ip n j d = elim (Bool-cases (k == ip)) [
  | inl e ↦ rw e (ground arith)
  | inr e ↦ rw e (ap (λ r. if k == j then some o else r) (lookup-insert_ne m ip n j d))
]

lookup-remove_self : (m : Counts) (ip : ℕ) → lookup (remove m ip) ip ≡ none
unfolding lookup remove
lookup-remove_self [] ip = refl
lookup-remove_self ((k, o) ∷ m) ip = elim (Bool-cases (k == ip)) [
  | inl e ↦ rw e (lookup-remove_self m ip)
  | inr e ↦ rw (e, e) (lookup-remove_self m ip)
]

lookup-remove_ne : (m : Counts) (ip j : ℕ) → ip ≢ j → lookup (remove m ip) j ≡ lookup m j
unfolding lookup remove
lookup-remove_ne [] ip j d = refl
lookup-remove_ne ((k, o) ∷ m) ip j d = elim (Bool-cases (k == ip)) [
  | inl e ↦
      rw e (let other : (k == j) ≡ false = ground arith in rw other (lookup-remove_ne m ip j d))
  | inr e ↦ rw e (ap (λ r. if k == j then some o else r) (lookup-remove_ne m ip j d))
]

-- The count of an address; none is zero.
abbrev pub count_of : Counts → ℕ → ℕ
count_of m ip = unwrap_or (lookup m ip) 0

pub count_of-insert_self : (m : Counts) (ip n : ℕ) → count_of (insert m ip n) ip ≡ n
count_of-insert_self m ip n = rw (lookup-insert_self m ip n) refl

pub count_of-insert_ne :
    (m : Counts) (ip n j : ℕ) → ip ≢ j → count_of (insert m ip n) j ≡ count_of m j
count_of-insert_ne m ip n j d = rw (lookup-insert_ne m ip n j d) refl

-- An entry of zero changes no count.
or_insert_found :
    (o : Option ℕ) (m : Counts) (ip j : ℕ)
    → lookup m ip ≡ o
    → count_of (or_insert_zero o m ip) j ≡ count_of m j
or_insert_found none m ip j e = elim (Bool-cases (ip == j)) [
  | inl s ↦
      let same : ip ≡ j = ground arith in
      subst (λ k. count_of (insert m ip 0) k ≡ count_of m k) same
        (count_of-insert_self m ip 0 ∙ sym (ap (λ r. unwrap_or r 0) e))
  | inr s ↦ count_of-insert_ne m ip 0 j (ground arith)
]
or_insert_found (some n) m ip j e = refl

pub count_of-or_insert :
    (m : Counts) (ip j : ℕ) → count_of (or_insert_zero (lookup m ip) m ip) j ≡ count_of m j
count_of-or_insert m ip j = or_insert_found (lookup m ip) m ip j refl

release_found :
    (o : Option ℕ) (m : Counts) (ip : ℕ)
    → lookup m ip ≡ o
    → (count_of (release o m ip) ip ≡ count_of m ip - 1)
      × ((j : ℕ) → ip ≢ j → count_of (release o m ip) j ≡ count_of m j)
release_found none m ip e = (rw e refl, λ j d. refl)
release_found (some n) m ip e = elim (Bool-cases (n - 1 == 0)) [
  | inl z ↦ rw z (
    ap (λ r. unwrap_or r 0) (lookup-remove_self m ip)
        ∙ (let last : 0 ≡ n - 1 = ground arith in last)
        ∙ ap (λ r. unwrap_or r 0 - 1) (sym e),
    λ j d. ap (λ r. unwrap_or r 0) (lookup-remove_ne m ip j d),
  )
  | inr z ↦ rw z (
    count_of-insert_self m ip (n - 1) ∙ ap (λ r. unwrap_or r 0 - 1) (sym e),
    λ j d. count_of-insert_ne m ip (n - 1) j d,
  )
]

-- Releasing an address takes one from its count and leaves the others.
pub count_of-release :
    (m : Counts) (ip : ℕ)
    → (count_of (release (lookup m ip) m ip) ip ≡ count_of m ip - 1)
      × ((j : ℕ) → ip ≢ j → count_of (release (lookup m ip) m ip) j ≡ count_of m j)
count_of-release m ip = release_found (lookup m ip) m ip refl
