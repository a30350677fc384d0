-- ===== src/Synthesizer/Combinations/Complete.antt =====
-- `chooseCombinations` returns the k-element index sets below n: all of them, and nothing else.
use composite_dra_driver.Prelude.{
  ℕ, zero, suc, ◌+◌, ◌-◌, ◌≤◌, ◌<◌, ◌≡◌, sym, ap, ◌↔◌, inl, List, [], ◌∷◌, ◌++◌, append_assoc,
  append-nil, pos, arith, length, Elem, Elem-append_left, Elem-append_right, All-at,
}
use native.Mathlib.Decide.{dec_lt}
use composite_dra_driver.Synthesizer.Combinations.{for_from, generate, choose_combinations}
use composite_dra_driver.Synthesizer.Combinations.Sound.{
  IsChoice, Extends, generate-Extends, binomial, binomial_above, length-generate, choose-generate,
  choose_above,
}

Elem-for_from :
    (xs : List ℕ) (body : ℕ → List (List ℕ)) (rounds start i : ℕ)
    → start ≤ i
    → i < start + rounds
    → Elem xs (body i)
    → Elem xs (for_from body rounds start)
unfolding for_from
Elem-for_from xs body zero start i p q m = absurd (omega arith)
Elem-for_from xs body (suc rounds) start i p q m = elim (dec_lt start i) [
  | yes later ↦
      Elem-append_right xs (body start) _
        (Elem-for_from xs body rounds (suc start) i later (omega arith) m)
  | no now ↦ let e : i ≡ start = omega arith in Elem-append_left xs (body start) _ (rw e at m)
]

-- k more indices fit
choice_fits : (n k start : ℕ) (xs : List ℕ) → start ≤ n → IsChoice n k start xs → start + k ≤ n
choice_fits n zero start [] h c = omega arith
choice_fits n zero start (i ∷ xs) h c = absurd c
choice_fits n (suc k) start [] h c = absurd c
choice_fits n (suc k) start (i ∷ xs) h c =
    omega (arith, choice_fits n k (suc i) xs (omega arith) c.2)

generate-Elem :
    (n k start : ℕ) (combo rest : List ℕ)
    → IsChoice n k start rest
    → Elem (combo ++ rest) (generate n k start combo)
unfolding generate
generate-Elem n zero start combo [] c = inl (append-nil combo)
generate-Elem n zero start combo (i ∷ rest) c = absurd c
generate-Elem n (suc left) start combo [] c = absurd c
generate-Elem n (suc left) start combo (i ∷ rest) c =
    Elem-for_from (combo ++ i ∷ rest) _ (n - left - start) start i c.0
      (omega (arith, choice_fits n left (suc i) rest (omega arith) c.2))
      (rw (append_assoc combo (i ∷ []) rest) at
        (generate-Elem n left (suc i) (combo ++ i ∷ []) rest c.2))

module _ (n k : ℕ) (positive : 1 ≤ k) where
  sound : (xs : List ℕ) → Elem xs (choose_combinations n (pos k)) → IsChoice n k 0 xs
  sound xs m = elim (dec_lt n k) [
    | yes above ↦ absurd (rw (choose_above n k above) at m)
    | no fits ↦
        let (rest, e, c) =
          All-at (Extends n k 0 []) (generate n k 0 []) (generate-Extends n k 0 []) xs
            (rw (choose-generate n k positive (omega arith)) at m) in
        rw e c
  ]

  complete : (xs : List ℕ) → IsChoice n k 0 xs → Elem xs (choose_combinations n (pos k))
  complete xs c =
      rw (choose-generate n k positive (omega (arith, choice_fits n k 0 xs (omega arith) c)))
        (generate-Elem n k 0 [] xs c)

  count : length (choose_combinations n (pos k)) ≡ binomial n k
  count = elim (dec_lt n k) [
    | yes above ↦ rw (choose_above n k above) (sym (binomial_above n k above))
    | no fits ↦
        rw (choose-generate n k positive (omega arith), length-generate n k 0 [])
          (ap (λ m. binomial m k) (omega arith))
  ]

-- For k ≥ 1 the rows of `chooseCombinations(n, k)` are exactly the increasing rows of k indices below
-- n, and their number is the binomial coefficient.
pub choose_combinations_exact :
    (n k : ℕ)
    → 1 ≤ k
    → ((xs : List ℕ) → Elem xs (choose_combinations n (pos k)) ↔ IsChoice n k 0 xs)
      × (length (choose_combinations n (pos k)) ≡ binomial n k)
choose_combinations_exact n k positive =
    ((λ xs. (sound n k positive xs, complete n k positive xs)), count n k positive)
