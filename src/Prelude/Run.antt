-- ===== src/Prelude/Run.antt =====
-- A Go function that may panic, by a nil dereference or an index out of range.
use mathlib.Core.Path.{◌≡◌, refl}
use mathlib.Core.List.{List, [], ◌∷◌}
use mathlib.Core.Option.{Option, none, some}
use composite_dra_driver.Prelude.Lists.{All}

pub data Run {ℓ} (A : Type ℓ) : Type ℓ where
  returns : A → Run A
  panics : Run A

infixl 5 ◌>>=◌
abbrev pub ◌>>=◌ {ℓ κ} : {A : Type ℓ} {B : Type κ} → Run A → (A → Run B) → Run B
panics >>= next = panics
returns value >>= next = next value

-- a pointer or an index that has to be there
abbrev pub deref {ℓ} : {A : Type ℓ} → Option A → Run A
deref none = panics
deref (some a) = returns a

module _ {ℓ κ} {A : Type ℓ} {B : Type κ} where
  pub >>=-eq-returns :
      (m : Run A) (f : A → Run B) {b : B}
      → (m >>= f) ≡ returns b
      → (a : A) × (m ≡ returns a) × (f a ≡ returns b)
  >>=-eq-returns (returns a) f h = (a, refl, h)
  >>=-eq-returns panics f h = cc

  -- `for _, x := range xs { result = append(result, f(x)) }`
  unfoldable pub for_each : (A → Run B) → List A → Run (List B)
  for_each f [] = returns []
  for_each f (x ∷ xs) = do b ← f x; bs ← for_each f xs; returns (b ∷ bs)

-- It returns, and what it returns satisfies `P`.
abbrev pub Returns {ℓ} : {A : Type ℓ} → (A → Type 0) → Run A → Type 0
Returns P (returns a) = P a
Returns P panics = ⊥

module _ {ℓ} {A : Type ℓ} where
  pub Returns-mono :
      (P Q : A → Type 0) (m : Run A) → ((a : A) → P a → Q a) → Returns P m → Returns Q m
  Returns-mono P Q (returns a) f h = f a h
  Returns-mono P Q panics f h = elim h [ ]

  pub Returns-at : (P : A → Type 0) (m : Run A) → Returns P m → (a : A) × (m ≡ returns a) × P a
  Returns-at P (returns a) h = (a, refl, h)
  Returns-at P panics h = elim h [ ]

module _ {ℓ κ} {A : Type ℓ} {B : Type κ} where
  pub Returns-bind :
      (P : A → Type 0) (Q : B → Type 0) (m : Run A) (f : A → Run B)
      → Returns P m
      → ((a : A) → P a → Returns Q (f a))
      → Returns Q (m >>= f)
  Returns-bind P Q (returns a) f h k = k a h
  Returns-bind P Q panics f h k = elim h [ ]

module _ {ℓ κ} {A : Type ℓ} {B : Type κ} where
  pub Returns-for_each :
      (D : A → Type 0) (P : B → Type 0) (f : A → Run B) (xs : List A)
      → ((x : A) → D x → Returns P (f x))
      → All D xs
      → Returns (All P) (for_each f xs)
  unfolding for_each
  Returns-for_each D P f [] k h = tt
  Returns-for_each D P f (x ∷ xs) k (d, h) = Returns-bind P (All P) (f x) _ (k x d) λ b pb.
      Returns-bind (All P) (All P) (for_each f xs) _ (Returns-for_each D P f xs k h)
        λ bs pbs. (pb, pbs)

-- What it returns, if it returns, satisfies `P`.
abbrev pub IfReturns {ℓ} : {A : Type ℓ} → (A → Type 0) → Run A → Type 0
IfReturns P (returns a) = P a
IfReturns P panics = Unit

module _ {ℓ κ} {A : Type ℓ} {B : Type κ} where
  pub IfReturns-bind :
      (P : A → Type 0) (Q : B → Type 0) (m : Run A) (f : A → Run B)
      → IfReturns P m
      → ((a : A) → P a → IfReturns Q (f a))
      → IfReturns Q (m >>= f)
  IfReturns-bind P Q (returns a) f h k = k a h
  IfReturns-bind P Q panics f h k = tt

module _ {ℓ κ} {A : Type ℓ} {B : Type κ} where
  pub IfReturns-for_each :
      (D : A → Type 0) (P : B → Type 0) (f : A → Run B) (xs : List A)
      → ((x : A) → D x → IfReturns P (f x))
      → All D xs
      → IfReturns (All P) (for_each f xs)
  unfolding for_each
  IfReturns-for_each D P f [] k h = tt
  IfReturns-for_each D P f (x ∷ xs) k (d, h) = IfReturns-bind P (All P) (f x) _ (k x d) λ b pb.
      IfReturns-bind (All P) (All P) (for_each f xs) _ (IfReturns-for_each D P f xs k h)
        λ bs pbs. (pb, pbs)

pub IfReturns-at {ℓ} :
    {A : Type ℓ} (P : A → Type 0) (m : Run A) (a : A) → IfReturns P m → m ≡ returns a → P a
IfReturns-at P (returns b) a h e = (let q : b ≡ a = cc in rw (← q) h)
IfReturns-at P panics a h e = cc

pub IfReturns-mono {ℓ} :
    {A : Type ℓ} (P Q : A → Type 0) (m : Run A)
    → ((a : A) → P a → Q a)
    → IfReturns P m
    → IfReturns Q m
IfReturns-mono P Q (returns a) f h = f a h
IfReturns-mono P Q panics f h = tt

pub IfReturns-any {ℓ} : {A : Type ℓ} (m : Run A) → IfReturns (λ _. Unit) m
IfReturns-any (returns a) = tt
IfReturns-any panics = tt

pub IfReturns-both {ℓ} :
    {A : Type ℓ} (P Q : A → Type 0) (m : Run A)
    → IfReturns P m
    → IfReturns Q m
    → IfReturns (λ a. P a × Q a) m
IfReturns-both P Q (returns a) p q = (p, q)
IfReturns-both P Q panics p q = tt

-- It returns, and what it returns, if it returns, satisfies `P`.
pub IfReturns-Returns {ℓ} :
    {A : Type ℓ} (P : A → Type 0) (m : Run A) → IfReturns P m → Returns (λ _. Unit) m → Returns P m
IfReturns-Returns P (returns a) p h = p
IfReturns-Returns P panics p h = elim h [ ]
