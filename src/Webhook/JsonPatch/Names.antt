-- ===== src/Webhook/JsonPatch/Names.antt =====
-- The names under which pkg/webhook/mutator.go remembers what it removed.
use composite_dra_driver.Prelude.{
  ℕ, ◌≡◌, ◌≢◌, refl, sym, ap, ◌∙◌, arith, true, false, ◌&&◌, ◌||◌, List, [], ◌∷◌, ◌++◌, GoString,
  codes, decimal, decimal_inj, has, str_eq, str_eq_iff, str_eq_refl, All, Bool-cases, inl, inr,
  ◌==◌,
}
use composite_dra_driver.Webhook.Requests.{ResourceMatch}
use composite_dra_driver.Webhook.JsonPatch.Paths.{decimal-no_slash}

-- a resource of a container, in the code's spelling
abbrev pub removed_name : ℕ → GoString → GoString
removed_name i k = decimal i ++ (codes "/" ++ k)

slash_inj :
    (s t k l : GoString)
    → All (λ c. c ≢ b'/') s
    → All (λ c. c ≢ b'/') t
    → s ++ b'/' ∷ k ≡ t ++ b'/' ∷ l
    → (s ≡ t) × (k ≡ l)
slash_inj [] [] k l hs ht e = (refl, cc)
slash_inj [] (d ∷ t) k l hs (n, ht) e = (let q : d ≡ b'/' = cc in absurd (n q))
slash_inj (c ∷ s) [] k l (n, hs) ht e = (let q : c ≡ b'/' = cc in absurd (n q))
slash_inj (c ∷ s) (d ∷ t) k l (n, hs) (m, ht) e =
    let head : c ≡ d = cc in
    let tail : s ++ b'/' ∷ k ≡ t ++ b'/' ∷ l = cc in
    let (first, second) = slash_inj s t k l hs ht tail in (cc, second)

str_eq-removed_name :
    (i j : ℕ) (k l : GoString)
    → str_eq (removed_name i k) (removed_name j l) ≡ ((i == j) && str_eq k l)
unfolding codes
str_eq-removed_name i j k l = elim (Bool-cases (str_eq (removed_name i k) (removed_name j l))) [
  | inl e ↦
      let (numbers, names) =
        slash_inj (decimal i) (decimal j) k l (decimal-no_slash i) (decimal-no_slash j)
          ((str_eq_iff (removed_name i k) (removed_name j l)).0 e) in
      let same : i ≡ j = decimal_inj i j numbers in
      let equal : str_eq k l ≡ true = (str_eq_iff k l).1 names in e ∙ ground arith
  | inr e ↦ elim (Bool-cases ((i == j) && str_eq k l)) [
    | inl both ↦
        let same : i ≡ j = ground arith in
        let equal : str_eq k l ≡ true = ground arith in
        let names : k ≡ l = (str_eq_iff k l).0 equal in
        let yes : str_eq (removed_name i k) (removed_name j l) ≡ true =
          rw (same, names) (str_eq_refl (removed_name j l)) in
        absurd (let q : true ≡ false = sym yes ∙ e in cc)
    | inr other ↦ e ∙ sym other
  ]
]

-- A name, against one that is removed first.
pub has-removed_name :
    (i j : ℕ) (k l : GoString) (removed : List GoString)
    → has (removed_name j l) (removed_name i k ∷ removed)
      ≡ (((i == j) && str_eq k l) || has (removed_name j l) removed)
unfolding has
has-removed_name i j k l removed =
    ap (λ b. b || has (removed_name j l) removed) (str_eq-removed_name i j k l)

-- the name that a match adds to the removed ones
abbrev pub name_of : ResourceMatch → GoString
name_of m = removed_name m.container_idx m.resource_name
