-- ===== src/Prelude/Result.antt =====
-- A Go result beside an `error`: `return nil, err` is `err`, any other return is `ok`.
use mathlib.Core.Path.{◌≡◌, refl}
use mathlib.Core.Logic.{◌↔◌, ◌⊎◌, inl, inr}
use mathlib.Core.Bool.{Bool, true, false}

pub data Result {ℓ κ} (E : Type ℓ) (A : Type κ) : Type (ℓ ⊔ κ) where
  ok : A → Result E A
  err : E → Result E A

-- `if b { return e }`
abbrev pub fail_if {ℓ} : {E : Type ℓ} → Bool → E → Result E (Unit {0})
fail_if false failure = ok tt
fail_if true failure = err failure

-- a call, and what the code does with its result when the error is nil
infixl 5 ◌>>=◌
abbrev pub ◌>>=◌ {ℓ κ μ} :
    {E : Type ℓ} {A : Type κ} {B : Type μ} → Result E A → (A → Result E B) → Result E B
err failure >>= next = err failure
ok value >>= next = next value

infixl 5 ◌>>◌
abbrev pub ◌>>◌ {ℓ κ} : {E : Type ℓ} {B : Type κ} → Result E (Unit {0}) → Result E B → Result E B
err failure >> next = err failure
ok done >> next = next

-- the two calls of a sequence that succeeds
pub ok_parts {ℓ κ μ} :
    {E : Type ℓ} {A : Type κ} {B : Type μ} {b : B} (m : Result E A) (next : A → Result E B)
    → (m >>= next) ≡ ok b
    → (a : A) × (m ≡ ok a) × (next a ≡ ok b)
ok_parts (err failure) next h = cc
ok_parts (ok value) next h = (value, refl, h)

-- A guard passes exactly when its test fails: the rules for a function that is a row of guards.
module _ {ℓ κ} {E : Type ℓ} {A : Type κ} {P Q : Type 0} where
  pub guard_iff :
      {b : Bool} (e : E) {m : Result E A} {a : A}
      → (b ≡ false) ↔ P
      → (m ≡ ok a) ↔ Q
      → ((fail_if b e >> m) ≡ ok a) ↔ (P × Q)
  guard_iff {b = true} e p q = (λ h. cc, λ h. (let f = p.1 h.0 in cc))
  guard_iff {b = false} e p q = (λ h. (p.0 refl, q.0 h), λ h. q.1 h.1)

  pub seq_iff :
      {n : Result E (Unit {0})} {m : Result E A} {a : A}
      → (n ≡ ok tt) ↔ P
      → (m ≡ ok a) ↔ Q
      → ((n >> m) ≡ ok a) ↔ (P × Q)
  seq_iff {n = ok tt} p q = (λ h. (p.0 refl, q.0 h), λ h. q.1 h.1)
  seq_iff {n = err e} p q = (λ h. cc, λ h. (let f = p.1 h.0 in cc))

pub last_iff {ℓ} :
    {E : Type ℓ} {P : Type 0} {b : Bool} (e : E) → (b ≡ false) ↔ P → (fail_if b e ≡ ok tt) ↔ P
last_iff {b = true} e p = (λ h. cc, λ h. (let f = p.1 h in cc))
last_iff {b = false} e p = (λ h. p.0 refl, λ h. refl)

-- An equivalence, its right side put into another form.
pub iff_with {ℓ κ μ} : {A : Type ℓ} {B : Type κ} {C : Type μ} → A ↔ B → (B → C) → (C → B) → A ↔ C
iff_with e f g = (λ a. f (e.0 a), λ c. e.1 (g c))

pub Result-cases {ℓ κ} :
    {E : Type ℓ} {A : Type κ} (r : Result E A) → ((e : E) × (r ≡ err e)) ⊎ ((a : A) × (r ≡ ok a))
Result-cases (ok a) = inr (a, refl)
Result-cases (err e) = inl (e, refl)

pub ok_inj {ℓ κ} : {E : Type ℓ} {A : Type κ} {a b : A} → ◌≡◌ {A = Result E A} (ok a) (ok b) → a ≡ b
ok_inj h = cc
