-- ===== src/Prelude/Results.antt =====
-- Rust's `Result`, with the do notation for `?` and early returns.
use mathlib.Core.Path.{◌≡◌, refl, subst}
use mathlib.Core.Bool.{Bool, true, false}
use mathlib.Core.Option.{Option, none, some}
use chronus_gateway.Prelude.Tests.{if◌then◌else◌}

pub data Result {ℓ κ} (E : Type κ) (A : Type ℓ) : Type (ℓ ⊔ κ) where
  err : E → Result E A
  ok : A → Result E A

-- `if b { return Err(e) }`
abbrev pub reject_if {κ} : {E : Type κ} → Bool → E → Result E (Unit {0})
reject_if true e = err e
reject_if false _ = ok tt

-- The operator `?`.
infixl 5 ◌>>=◌
abbrev pub ◌>>=◌ {κ ℓ μ} :
    {E : Type κ} {A : Type ℓ} {B : Type μ} (first : Result E A) (rest : A → Result E B) → Result E B
err failure >>= rest = err failure
ok value >>= rest = rest value

abbrev pub ok_or {ℓ κ} : {E : Type κ} {A : Type ℓ} → Option A → E → Result E A
ok_or none e = err e
ok_or (some a) e = ok a

-- A step whose value is not used, as a guard is.
infixl 5 ◌>>◌
abbrev pub ◌>>◌ {κ μ} :
    {E : Type κ} {B : Type μ} (guarded : Result E (Unit {0})) (rest : Result E B) → Result E B
guarded >> rest = guarded >>= λ (_ : Unit {0}). rest

-- Both steps of a chain that returned.
pub >>=-eq-ok {κ ℓ μ} :
    {E : Type κ} {A : Type ℓ} {B : Type μ} (first : Result E A) (rest : A → Result E B) {b : B}
    → (first >>= rest) ≡ ok b
    → (value : A) × (first ≡ ok value) × (rest value ≡ ok b)
>>=-eq-ok (err failure) rest h = cc
>>=-eq-ok (ok value) rest h = (value, refl, h)

ok-inj {ℓ κ} : {E : Type κ} {A : Type ℓ} (a b : A) → ◌≡◌ {A = Result E A} (ok a) (ok b) → a ≡ b
ok-inj a b h = cc

-- A result that is an error or satisfies the predicate.
pub record IfOk {ℓ κ μ} {E : Type κ} {A : Type ℓ} (P : A → Type μ) (r : Result E A)
    : Type (ℓ ⊔ κ ⊔ μ) where
  pub holds : (a : A) → r ≡ ok a → P a

module _ {ℓ κ μ} {E : Type κ} {A : Type ℓ} (P : A → Type μ) where
  pub IfOk-err : (e : E) → IfOk P (err e)
  IfOk-err e = record { holds = λ a h. cc }

  pub IfOk-ok : (a : A) → P a → IfOk {E = E} P (ok a)
  IfOk-ok a p = record { holds = λ b h. subst P (ok-inj a b h) p }

  pub IfOk-if : (b : Bool) (r r' : Result E A) → IfOk P r → IfOk P r' → IfOk P (if b then r else r')
  IfOk-if true r r' h h' = h
  IfOk-if false r r' h h' = h'

  pub IfOk-ok_or : (o : Option A) (e : E) → ((a : A) → o ≡ some a → P a) → IfOk P (ok_or o e)
  IfOk-ok_or none e h = IfOk-err e
  IfOk-ok_or (some a) e h = IfOk-ok a (h a refl)

module _ {ℓ κ μ ν} {E : Type κ} {A : Type ℓ} {B : Type μ} (P : B → Type ν) where
  pub IfOk-bind :
      (x : Result E A) (f : A → Result E B) → ((a : A) → x ≡ ok a → IfOk P (f a)) → IfOk P (x >>= f)
  IfOk-bind x f h = record {
    holds = λ b e. let (a, ex, eb) = >>=-eq-ok x f e in (h a ex).holds b eb;
  }
