-- ===== src/Synthesizer/Matching/Order.antt =====
-- `sort.Slice` by name: a rearrangement, in which no name comes before a smaller one.
use composite_dra_driver.Prelude.{inl, inr, List, [], ◌∷◌, str_lt, All, Bool-cases}
use composite_dra_driver.Synthesizer.Devices.{CompositeDevice}
use composite_dra_driver.Synthesizer.Matching.{insert_by_name, sort_by_name}

-- every two items, in the order of the list, are related
abbrev pub Pairs {ℓ} : {A : Type 0} → (A → A → Type ℓ) → List A → Type ℓ
Pairs R [] = Unit
Pairs R (x ∷ xs) = All (R x) xs × Pairs R xs

module _ (P : CompositeDevice → Type 0) where
  All-insert_by_name :
      (cd : CompositeDevice) (cds : List CompositeDevice)
      → P cd
      → All P cds
      → All P (insert_by_name cd cds)
  unfolding insert_by_name
  All-insert_by_name cd [] p h = (p, tt)
  All-insert_by_name cd (x ∷ xs) p h = elim (Bool-cases (str_lt x.name cd.name)) [
    | inl e ↦ rw e (h.0, All-insert_by_name cd xs p h.1)
    | inr e ↦ rw e (p, h)
  ]

  pub All-sort_by_name : (cds : List CompositeDevice) → All P cds → All P (sort_by_name cds)
  unfolding sort_by_name
  All-sort_by_name [] h = tt
  All-sort_by_name (cd ∷ cds) h =
      All-insert_by_name cd (sort_by_name cds) h.0 (All-sort_by_name cds h.1)

-- a symmetric relation between the items does not depend on their order
module _ (R : CompositeDevice → CompositeDevice → Type 0)
    (flip : (a b : CompositeDevice) → R a b → R b a) where
  Pairs-insert_by_name :
      (cd : CompositeDevice) (cds : List CompositeDevice)
      → All (R cd) cds
      → Pairs R cds
      → Pairs R (insert_by_name cd cds)
  unfolding insert_by_name
  Pairs-insert_by_name cd [] a h = (tt, tt)
  Pairs-insert_by_name cd (x ∷ xs) a h = elim (Bool-cases (str_lt x.name cd.name)) [
    | inl e ↦
        rw e
          (All-insert_by_name (R x) cd xs (flip cd x a.0) h.0, Pairs-insert_by_name cd xs a.1 h.1)
    | inr e ↦ rw e (a, h)
  ]

  pub Pairs-sort_by_name : (cds : List CompositeDevice) → Pairs R cds → Pairs R (sort_by_name cds)
  unfolding sort_by_name
  Pairs-sort_by_name [] h = tt
  Pairs-sort_by_name (cd ∷ cds) h =
      Pairs-insert_by_name cd (sort_by_name cds) (All-sort_by_name (R cd) cds h.0)
        (Pairs-sort_by_name cds h.1)
