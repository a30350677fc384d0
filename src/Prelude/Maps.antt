-- ===== src/Prelude/Maps.antt =====
-- A Go map with string keys, as an association list in the order in which `range` visits it: a
-- statement about every such list is one about every order of iteration.
use mathlib.Core.Path.{◌≡◌, refl, subst}
use mathlib.Core.Logic.{inl, inr}
use mathlib.Core.Bool.{Bool, true, false, ◌||◌}
use mathlib.Core.Option.{Option, none, some}
use mathlib.Core.List.{List, [], ◌∷◌}
use native.Mathlib.Omega.{arith}
use composite_dra_driver.Prelude.Tests.{if◌then◌else◌, Bool-cases, Option-cases}
use mathlib.Core.Logic.{◌≢◌}
use composite_dra_driver.Prelude.Lists.{AllDistinct, All, Elem}
use composite_dra_driver.Prelude.Text.{GoString, str_eq-ne, str_eq, str_eq_iff, str_eq_refl}

abbrev pub GoMap {ℓ} : Type ℓ → Type ℓ
GoMap V = List (GoString × V)

module _ {ℓ} {V : Type ℓ} where
  unfoldable pub lookup : GoString → GoMap V → Option V
  lookup k [] = none
  lookup k ((j, v) ∷ m) = if str_eq j k then some v else lookup k m

  -- m[k] = v
  unfoldable pub insert : GoString → V → GoMap V → GoMap V
  insert k v [] = (k, v) ∷ []
  insert k v ((j, w) ∷ m) = if str_eq j k then (k, v) ∷ m else (j, w) ∷ insert k v m

  -- delete(m, k)
  unfoldable pub delete : GoString → GoMap V → GoMap V
  delete k [] = []
  delete k ((j, w) ∷ m) = let rest = delete k m in if str_eq j k then rest else (j, w) ∷ rest

  -- m[k], where a missing key reads as the zero value
  unfoldable pub lookup_or : V → GoString → GoMap V → V
  unfolding lookup
  lookup_or zero k m = elim (lookup k m) [ none ↦ zero | some v ↦ v ]

  abbrev pub keys : GoMap V → List GoString
  keys [] = []
  keys ((k, v) ∷ m) = k ∷ keys m

  pub lookup-insert :
      (k j : GoString) (v : V) (m : GoMap V)
      → lookup j (insert k v m) ≡ (if str_eq k j then some v else lookup j m)
  unfolding lookup insert
  lookup-insert k j v [] = refl
  lookup-insert k j v ((i, w) ∷ m) =
      ground (arith, str_eq_iff k j, str_eq_iff i k, str_eq_iff i j, lookup-insert k j v m)

  pub lookup-delete :
      (k j : GoString) (m : GoMap V)
      → lookup j (delete k m) ≡ (if str_eq k j then none else lookup j m)
  unfolding lookup delete
  lookup-delete k j [] = ground arith
  lookup-delete k j ((i, w) ∷ m) =
      ground (arith, str_eq_iff k j, str_eq_iff i k, str_eq_iff i j, lookup-delete k j m)

  pub lookup-insert_self : (k : GoString) (v : V) (m : GoMap V) → lookup k (insert k v m) ≡ some v
  lookup-insert_self k v m = simp (lookup-insert, str_eq_refl)

  pub All-insert {κ} :
      (P : GoString × V → Type κ) (k : GoString) (v : V) (m : GoMap V)
      → P (k, v)
      → All P m
      → All P (insert k v m)
  unfolding insert
  All-insert P k v [] p h = (p, tt)
  All-insert P k v ((j, w) ∷ m) p (q, h) = elim (Bool-cases (str_eq j k)) [
    | inl e ↦ rw e (p, h)
    | inr e ↦ rw e (q, All-insert P k v m p h)
  ]

  pub All-lookup {κ} :
      (P : GoString × V → Type κ) (k : GoString) (m : GoMap V) (v : V)
      → All P m
      → lookup k m ≡ some v
      → P (k, v)
  unfolding lookup
  All-lookup P k [] v h e = cc
  All-lookup P k ((j, w) ∷ m) v (p, h) e = elim (Bool-cases (str_eq j k)) [
    | inl q ↦
        let eq : ◌≡◌ {A = GoString × V} (j, w) (k, v) = ground (arith, str_eq_iff j k) in rw eq at p
    | inr q ↦ All-lookup P k m v h (rw q at e)
  ]

-- The keys of a map are distinct, and stay so.
module _ {ℓ} {V : Type ℓ} where
  All-keys_insert :
      (P : GoString → Type 0) (k : GoString) (v : V) (m : GoMap V)
      → P k
      → All P (keys m)
      → All P (keys (insert k v m))
  unfolding insert
  All-keys_insert P k v [] p h = (p, tt)
  All-keys_insert P k v ((j, w) ∷ m) p (q, h) = elim (Bool-cases (str_eq j k)) [
    | inl e ↦ rw e (p, h)
    | inr e ↦ rw e (q, All-keys_insert P k v m p h)
  ]

  pub insert-AllDistinct :
      (k : GoString) (v : V) (m : GoMap V)
      → AllDistinct (keys m)
      → AllDistinct (keys (insert k v m))
  unfolding insert
  insert-AllDistinct k v [] h = (tt, tt)
  insert-AllDistinct k v ((j, w) ∷ m) (ne, h) = elim (Bool-cases (str_eq j k)) [
    | inl e ↦ rw e (subst (λ i. All (λ y. i ≢ y) (keys m)) ((str_eq_iff j k).0 e) ne, h)
    | inr e ↦
        rw e (All-keys_insert (λ y. j ≢ y) k v m (str_eq-ne j k e) ne, insert-AllDistinct k v m h)
  ]

module _ {ℓ} {V : Type ℓ} where
  pub All-delete {κ} :
      (P : GoString × V → Type κ) (k : GoString) (m : GoMap V) → All P m → All P (delete k m)
  unfolding delete
  All-delete P k [] h = tt
  All-delete P k ((j, w) ∷ m) (p, h) = elim (Bool-cases (str_eq j k)) [
    | inl e ↦ rw e (All-delete P k m h)
    | inr e ↦ rw e (p, All-delete P k m h)
  ]

  All-keys_delete :
      (P : GoString → Type 0) (k : GoString) (m : GoMap V)
      → All P (keys m)
      → All P (keys (delete k m))
  unfolding delete
  All-keys_delete P k [] h = tt
  All-keys_delete P k ((j, w) ∷ m) (p, h) = elim (Bool-cases (str_eq j k)) [
    | inl e ↦ rw e (All-keys_delete P k m h)
    | inr e ↦ rw e (p, All-keys_delete P k m h)
  ]

  pub delete-AllDistinct :
      (k : GoString) (m : GoMap V) → AllDistinct (keys m) → AllDistinct (keys (delete k m))
  unfolding delete
  delete-AllDistinct k [] h = tt
  delete-AllDistinct k ((j, w) ∷ m) (ne, h) = elim (Bool-cases (str_eq j k)) [
    | inl e ↦ rw e (delete-AllDistinct k m h)
    | inr e ↦ rw e (All-keys_delete (λ y. j ≢ y) k m ne, delete-AllDistinct k m h)
  ]

-- an entry whose key is found is one of the entries
pub lookup-Elem :
    {V : Type 0} (k : GoString) (m : GoMap V) (v : V) → lookup k m ≡ some v → Elem (k, v) m
unfolding lookup
lookup-Elem k [] v h = cc
lookup-Elem k ((j, w) ∷ m) v h = elim (Bool-cases (str_eq j k)) [
  | inl e ↦ inl (ground (arith, str_eq_iff j k))
  | inr e ↦ inr (lookup-Elem k m v (rw e at h))
]

-- A `map[string]bool` whose values are all true is the list of its keys.
unfoldable pub has : GoString → List GoString → Bool
has k [] = false
has k (j ∷ js) = str_eq j k || has k js

pub has→Elem : (k : GoString) (js : List GoString) → has k js ≡ true → Elem k js
unfolding has
has→Elem k [] h = cc
has→Elem k (j ∷ js) h = ground (arith, str_eq_iff j k, has→Elem k js)

pub Elem→has : (k : GoString) (js : List GoString) → Elem k js → has k js ≡ true
unfolding has
Elem→has k [] h = elim h [ ]
Elem→has k (j ∷ js) h = ground (arith, str_eq_iff j k, Elem→has k js)

pub lookup_or-eq {ℓ} :
    {V : Type ℓ} (zero : V) (k : GoString) (m : GoMap V) (v : V)
    → lookup k m ≡ some v
    → lookup_or zero k m ≡ v
unfolding lookup_or
lookup_or-eq zero k m v e = ground arith

pub lookup_or-none {ℓ} :
    {V : Type ℓ} (zero : V) (k : GoString) (m : GoMap V)
    → lookup k m ≡ none
    → lookup_or zero k m ≡ zero
unfolding lookup_or
lookup_or-none zero k m e = ground arith

-- m[k] reads an entry or the zero value
pub All-lookup_or {ℓ κ} :
    {V : Type ℓ} (P : GoString × V → Type κ) (zero : V) (k : GoString) (m : GoMap V)
    → P (k, zero)
    → All P m
    → P (k, lookup_or zero k m)
All-lookup_or P zero k m p h = elim (Option-cases (lookup k m)) [
  | inl e ↦ rw (lookup_or-none zero k m e) p
  | inr (v, e) ↦ rw (lookup_or-eq zero k m v e) (All-lookup P k m v h e)
]

pub lookup_or-insert {ℓ} :
    {V : Type ℓ} (zero : V) (k j : GoString) (v : V) (m : GoMap V)
    → lookup_or zero j (insert k v m) ≡ (if str_eq k j then v else lookup_or zero j m)
unfolding lookup_or
lookup_or-insert zero k j v m = ground (arith, lookup-insert k j v m)
