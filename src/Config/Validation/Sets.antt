-- ===== src/Config/Validation/Sets.antt =====
-- The sets of names that `Validate` collects, against membership and distinctness.
use composite_dra_driver.Prelude.{
  ◌≤◌, ◌≡◌, refl, sym, ◌≢◌, ◌↔◌, ◌⊎◌, inl, inr, Bool, true, false, not, List, [], ◌∷◌, arith,
  GoString, str_eq, str_eq_iff, is_empty, has, has→Elem, Elem→has, length, ltb, Elem, All,
  AllDistinct, All-mono, Bool-cases,
}
use composite_dra_driver.Config.Validation.{distinct, is_nil}

pub is_empty_iff : (s : GoString) → (is_empty s ≡ false) ↔ (s ≢ [])
is_empty_iff [] = (λ h. cc, λ h. absurd (h refl))
is_empty_iff (a ∷ s) = (λ h e. cc, λ h. refl)

pub is_nil_iff {ℓ} : {A : Type ℓ} (xs : List A) → (is_nil xs ≡ false) ↔ (xs ≢ [])
is_nil_iff [] = (λ h. cc, λ h. absurd (h refl))
is_nil_iff (x ∷ xs) = (λ h e. cc, λ h. refl)

pub not-is_nil_iff {ℓ} : {A : Type ℓ} (xs : List A) → (not (is_nil xs) ≡ false) ↔ (xs ≡ [])
not-is_nil_iff [] = (λ h. refl, λ h. refl)
not-is_nil_iff (x ∷ xs) = (λ h. cc, λ h. cc)

pub not_iff : (b : Bool) → (not b ≡ false) ↔ (b ≡ true)
not_iff true = (λ h. refl, λ h. refl)
not_iff false = (λ h. cc, λ h. cc)

pub not-has_iff : (k : GoString) (js : List GoString) → (not (has k js) ≡ false) ↔ Elem k js
not-has_iff k js =
    (λ h. has→Elem k js ((not_iff (has k js)).0 h), λ h. (not_iff (has k js)).1 (Elem→has k js h))

pub has-false_iff : (k : GoString) (js : List GoString) → (has k js ≡ false) ↔ (¬ Elem k js)
has-false_iff k js = (
  λ h m. (let t = Elem→has k js m in cc),
  λ h. elim (Bool-cases (has k js)) [ inl t ↦ absurd (h (has→Elem k js t)) | inr f ↦ f ],
)

pub ne-str_eq_iff : (s t : GoString) → (str_eq s t ≡ false) ↔ (s ≢ t)
ne-str_eq_iff s t = (
  λ h e. (let q = (str_eq_iff s t).1 e in cc),
  λ h. elim (Bool-cases (str_eq s t)) [ inl e ↦ absurd (h ((str_eq_iff s t).0 e)) | inr e ↦ e ],
)

-- Each name is new when its turn comes.
abbrev pub AllFresh : List GoString → List GoString → Type 0
AllFresh seen [] = Unit
AllFresh seen (x ∷ xs) = (¬ Elem x seen) × AllFresh (x ∷ seen) xs

fresh-split :
    (seen xs : List GoString) → AllFresh seen xs → All (λ x. ¬ Elem x seen) xs × AllDistinct xs
fresh-split seen [] h = (tt, tt)
fresh-split seen (x ∷ xs) (n, h) =
    let (a, d) = fresh-split (x ∷ seen) xs h in
    ((n, All-mono xs (λ y f m. f (inr m)) a), (All-mono xs (λ y f e. f (inl (sym e))) a, d))

fresh-join :
    (seen xs : List GoString) → All (λ x. ¬ Elem x seen) xs → AllDistinct xs → AllFresh seen xs
fresh-join seen [] a d = tt
fresh-join seen (x ∷ xs) (n, a) (e, d) = (n, fresh-join (x ∷ seen) xs (both xs a e) d)
  where
    not_either : (y : GoString) → ¬ Elem y seen → x ≢ y → ¬ Elem y (x ∷ seen)
    not_either y f g (inl q) = g (sym q)
    not_either y f g (inr q) = f q

    both :
        (ys : List GoString)
        → All (λ y. ¬ Elem y seen) ys
        → All (λ y. x ≢ y) ys
        → All (λ y. ¬ Elem y (x ∷ seen)) ys
    both [] p q = tt
    both (y ∷ ys) (p, ps) (q, qs) = (not_either y p q, both ys ps qs)

none_seen : (xs : List GoString) → All (λ x. ¬ Elem x []) xs
none_seen [] = tt
none_seen (x ∷ xs) = (λ m. m, none_seen xs)

pub AllFresh-iff : (xs : List GoString) → AllFresh [] xs ↔ AllDistinct xs
AllFresh-iff xs = (λ h. (fresh-split [] xs h).1, λ d. fresh-join [] xs (none_seen xs) d)

pub Elem-distinct :
    (k : GoString) (seen xs : List GoString) → Elem k (distinct seen xs) ↔ (Elem k seen ⊎ Elem k xs)
unfolding distinct
Elem-distinct k seen [] = (inl, λ h. elim h [ inl m ↦ m | inr m ↦ absurd m ])
Elem-distinct k seen (x ∷ xs) = elim (Bool-cases (has x seen)) [
  | inl old ↦ rw old (
    λ h. elim ((Elem-distinct k seen xs).0 h) [ inl m ↦ inl m | inr m ↦ inr (inr m) ],
    λ h. elim h [
      | inl m ↦ (Elem-distinct k seen xs).1 (inl m)
      | inr (inl e) ↦ (Elem-distinct k seen xs).1 (inl (rw e (has→Elem x seen old)))
      | inr (inr m) ↦ (Elem-distinct k seen xs).1 (inr m)
    ],
  )
  | inr new ↦ rw new (
    λ h. elim ((Elem-distinct k (x ∷ seen) xs).0 h) [
      | inl (inl e) ↦ inr (inl e)
      | inl (inr m) ↦ inl m
      | inr m ↦ inr (inr m)
    ],
    λ h. elim h [
      | inl m ↦ (Elem-distinct k (x ∷ seen) xs).1 (inl (inr m))
      | inr (inl e) ↦ (Elem-distinct k (x ∷ seen) xs).1 (inl (inl e))
      | inr (inr m) ↦ (Elem-distinct k (x ∷ seen) xs).1 (inr m)
    ],
  )
]

length-distinct-ge : (seen xs : List GoString) → length seen ≤ length (distinct seen xs)
unfolding distinct
length-distinct-ge seen [] = omega arith
length-distinct-ge seen (x ∷ xs) = elim (Bool-cases (has x seen)) [
  | inl old ↦ rw old (length-distinct-ge seen xs)
  | inr new ↦ rw new (omega (arith, length-distinct-ge (x ∷ seen) xs))
]

-- All names are one and the same.
abbrev pub AllSame : List GoString → Type 0
AllSame [] = Unit
AllSame (x ∷ xs) = All (λ y. y ≡ x) xs

one_name :
    (x : GoString) (xs : List GoString)
    → (ltb 1 (length (distinct (x ∷ []) xs)) ≡ false) ↔ All (λ y. y ≡ x) xs
unfolding distinct has
one_name x [] = (λ h. tt, λ h. ground arith)
one_name x (y ∷ ys) = elim (Bool-cases (str_eq x y)) [
  | inl e ↦
      rw e (λ h. (sym ((str_eq_iff x y).0 e), (one_name x ys).0 h), λ h. (one_name x ys).1 h.1)
  | inr e ↦ rw e (
    λ h. absurd (ground (arith, length-distinct-ge (y ∷ x ∷ []) ys)),
    λ h. absurd ((ne-str_eq_iff x y).0 e (sym h.0)),
  )
]

pub AllSame-iff : (xs : List GoString) → (ltb 1 (length (distinct [] xs)) ≡ false) ↔ AllSame xs
unfolding distinct has
AllSame-iff [] = (λ h. tt, λ h. ground arith)
AllSame-iff (x ∷ xs) = one_name x xs
