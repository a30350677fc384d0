-- ===== src/Prelude/Lists.antt =====
-- Lists by native numbers, and the predicates on lists that the tactics read.
use Prim.Native.Nat.{ℕ, zero, suc, ◌+◌, ◌-◌, ◌≤◌, min}
use mathlib.Core.Path.{◌≡◌, refl, ap}
use mathlib.Core.Logic.{◌≢◌, ◌⊎◌, inl, inr}
use mathlib.Core.List.{List, [], ◌∷◌, ◌++◌, map}
use mathlib.Core.Option.{Option, none, some}
use native.Mathlib.Omega.{arith}

module _ {ℓ} {A : Type ℓ} where
  abbrev pub length : List A → ℕ
  length [] = 0
  length (x ∷ xs) = suc (length xs)

  abbrev pub get_elem? : List A → ℕ → Option A
  get_elem? [] i = none
  get_elem? (x ∷ xs) zero = some x
  get_elem? (x ∷ xs) (suc i) = get_elem? xs i

  abbrev pub take : ℕ → List A → List A
  take zero xs = []
  take (suc n) [] = []
  take (suc n) (x ∷ xs) = x ∷ take n xs

  abbrev pub drop : ℕ → List A → List A
  drop zero xs = xs
  drop (suc n) [] = []
  drop (suc n) (x ∷ xs) = drop n xs

  pub length-append : (xs ys : List A) → length (xs ++ ys) ≡ length xs + length ys
  length-append [] ys = omega arith
  length-append (x ∷ xs) ys = omega (arith, length-append xs ys)

  pub length-take : (n : ℕ) (xs : List A) → length (take n xs) ≡ min n (length xs)
  length-take zero xs = omega arith
  length-take (suc n) [] = omega arith
  length-take (suc n) (x ∷ xs) = omega (arith, length-take n xs)

  pub length-drop : (n : ℕ) (xs : List A) → length (drop n xs) ≡ length xs - n
  length-drop zero xs = omega arith
  length-drop (suc n) [] = omega arith
  length-drop (suc n) (x ∷ xs) = omega (arith, length-drop n xs)

  pub take-append-drop : (n : ℕ) (xs : List A) → take n xs ++ drop n xs ≡ xs
  take-append-drop zero xs = refl
  take-append-drop (suc n) [] = refl
  take-append-drop (suc n) (x ∷ xs) = ap (◌∷◌ x) (take-append-drop n xs)

  pub take-all : (n : ℕ) (xs : List A) → length xs ≤ n → take n xs ≡ xs
  take-all zero [] h = refl
  take-all zero (x ∷ xs) h = absurd (omega arith)
  take-all (suc n) [] h = refl
  take-all (suc n) (x ∷ xs) h = ap (◌∷◌ x) (take-all n xs (omega arith))

  pub cons-ne-nil : (x : A) (xs : List A) → x ∷ xs ≢ []
  cons-ne-nil x xs e = cc

module _ {A : Type 0} where
  -- `x` is one of the items; a proof shows where.
  abbrev pub Elem : A → List A → Type 0
  Elem x [] = ⊥
  Elem x (y ∷ ys) = (x ≡ y) ⊎ Elem x ys

  pub Elem-append_left : (x : A) (xs ys : List A) → Elem x xs → Elem x (xs ++ ys)
  Elem-append_left x (z ∷ xs) ys (inl e) = inl e
  Elem-append_left x (z ∷ xs) ys (inr h) = inr (Elem-append_left x xs ys h)
  Elem-append_left x [] ys h = elim h [ ]

  pub Elem-append_right : (x : A) (xs ys : List A) → Elem x ys → Elem x (xs ++ ys)
  Elem-append_right x [] ys h = h
  Elem-append_right x (z ∷ xs) ys h = inr (Elem-append_right x xs ys h)

  pub Elem-append : (x : A) (xs ys : List A) → Elem x (xs ++ ys) → Elem x xs ⊎ Elem x ys
  Elem-append x [] ys h = inr h
  Elem-append x (z ∷ xs) ys (inl e) = inl (inl e)
  Elem-append x (z ∷ xs) ys (inr h) = elim (Elem-append x xs ys h) [
    | inl l ↦ inl (inr l)
    | inr r ↦ inr r
  ]

module _ {ℓ κ} {A : Type ℓ} (P : A → Type κ) where
  abbrev pub All : List A → Type κ
  All [] = Unit
  All (x ∷ xs) = P x × All xs

  pub All-append : (xs ys : List A) → All xs → All ys → All (xs ++ ys)
  All-append [] ys _ hy = hy
  All-append (x ∷ xs) ys (px, hx) hy = (px, All-append xs ys hx hy)

  pub All-left : (xs ys : List A) → All (xs ++ ys) → All xs
  All-left [] ys h = tt
  All-left (x ∷ xs) ys (p, h) = (p, All-left xs ys h)

  pub All-right : (xs ys : List A) → All (xs ++ ys) → All ys
  All-right [] ys h = h
  All-right (x ∷ xs) ys (p, h) = All-right xs ys h

  pub All-of_all : ((x : A) → P x) → (xs : List A) → All xs
  All-of_all h [] = tt
  All-of_all h (x ∷ xs) = (h x, All-of_all h xs)

  pub All-take : (n : ℕ) (xs : List A) → All xs → All (take n xs)
  All-take zero xs h = tt
  All-take (suc n) [] h = tt
  All-take (suc n) (x ∷ xs) (p, h) = (p, All-take n xs h)

module _ {ℓ κ μ} {A : Type ℓ} {P : A → Type κ} {Q : A → Type μ} where
  pub All-mono : (xs : List A) → ((x : A) → P x → Q x) → All P xs → All Q xs
  All-mono [] f h = tt
  All-mono (x ∷ xs) f (p, h) = (f x p, All-mono xs f h)

module _ {ℓ κ μ} {A : Type ℓ} {B : Type κ} (P : B → Type μ) (f : A → B) where
  pub All-map : (xs : List A) → All (λ x. P (f x)) xs → All P (map f xs)
  All-map [] h = tt
  All-map (x ∷ xs) (p, h) = (p, All-map xs h)

-- No two items are equal.
abbrev pub AllDistinct {ℓ} : {A : Type ℓ} → List A → Type ℓ
AllDistinct [] = Unit
AllDistinct (x ∷ xs) = All (λ y. x ≢ y) xs × AllDistinct xs

pub length-map {ℓ κ} :
    {A : Type ℓ} {B : Type κ} (f : A → B) (xs : List A) → length (map f xs) ≡ length xs
length-map f [] = refl
length-map f (x ∷ xs) = ap suc (length-map f xs)

abbrev pub concat {ℓ} : {A : Type ℓ} → List (List A) → List A
concat [] = []
concat (xs ∷ xss) = xs ++ concat xss

pub All-concat {ℓ κ} :
    {A : Type ℓ} (P : A → Type κ) (xss : List (List A)) → All (All P) xss → All P (concat xss)
All-concat P [] h = tt
All-concat P (xs ∷ xss) (p, h) = All-append P xs (concat xss) p (All-concat P xss h)

pub All-of_Elem :
    {A : Type 0} (P : A → Type 0) (xs : List A) → ((x : A) → Elem x xs → P x) → All P xs
All-of_Elem P [] f = tt
All-of_Elem P (y ∷ xs) f = (f y (inl refl), All-of_Elem P xs (λ x m. f x (inr m)))

pub All-at : {A : Type 0} (P : A → Type 0) (xs : List A) → All P xs → (x : A) → Elem x xs → P x
All-at P (y ∷ xs) (p, h) x (inl e) = rw e p
All-at P (y ∷ xs) (p, h) x (inr m) = All-at P xs h x m
All-at P [] h x m = elim m [ ]

pub Elem-map : {A B : Type 0} (f : A → B) (x : A) (xs : List A) → Elem x xs → Elem (f x) (map f xs)
Elem-map f x (y ∷ xs) (inl e) = inl (ap f e)
Elem-map f x (y ∷ xs) (inr m) = inr (Elem-map f x xs m)
Elem-map f x [] m = elim m [ ]

pub Elem-of_map :
    {A B : Type 0} (f : A → B) (y : B) (xs : List A)
    → Elem y (map f xs)
    → (x : A) × Elem x xs × (y ≡ f x)
Elem-of_map f y (x ∷ xs) (inl e) = (x, inl refl, e)
Elem-of_map f y (x ∷ xs) (inr m) = (let (z, n, e) = Elem-of_map f y xs m in (z, inr n, e))
Elem-of_map f y [] m = elim m [ ]

pub Elem-concat :
    {A : Type 0} (x : A) (xs : List A) (xss : List (List A))
    → Elem xs xss
    → Elem x xs
    → Elem x (concat xss)
Elem-concat x xs (ys ∷ xss) (inl e) h = Elem-append_left x ys (concat xss) (rw (← e) h)
Elem-concat x xs (ys ∷ xss) (inr m) h =
    Elem-append_right x ys (concat xss) (Elem-concat x xs xss m h)
Elem-concat x xs [] m h = elim m [ ]
