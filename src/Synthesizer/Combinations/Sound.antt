-- ===== src/Synthesizer/Combinations/Sound.antt =====
-- What the recursion of `chooseCombinations` generates: increasing rows of k indices below n, as many
-- as the binomial coefficient says. The case k == 1 is the recursion too.
use composite_dra_driver.Prelude.{
  ℕ, zero, suc, ◌+◌, ◌-◌, ◌≤◌, ◌<◌, ◌≡◌, refl, sym, ap, ◌∙◌, false, List, [], ◌∷◌, ◌++◌,
  append_assoc, append-nil, pos, arith, ltb, length, length-append, All, All-append, All-mono,
}
use composite_dra_driver.Synthesizer.Combinations.{
  for_from, generate, singletons, choose_combinations,
}

-- an increasing row of `k` indices from `start` on, all below `n`
abbrev pub IsChoice : ℕ → ℕ → ℕ → List ℕ → Type 0
IsChoice n zero start [] = Unit
IsChoice n zero start (i ∷ is) = ⊥
IsChoice n (suc k) start [] = ⊥
IsChoice n (suc k) start (i ∷ is) = (start ≤ i) × (i < n) × IsChoice n k (suc i) is

-- `combo` and a choice behind it
abbrev pub Extends : ℕ → ℕ → ℕ → List ℕ → List ℕ → Type 0
Extends n k start combo xs = (rest : List ℕ) × (xs ≡ combo ++ rest) × IsChoice n k start rest

pub All-for_from :
    (P : List ℕ → Type 0) (body : ℕ → List (List ℕ)) (rounds start : ℕ)
    → ((i : ℕ) → start ≤ i → i < start + rounds → All P (body i))
    → All P (for_from body rounds start)
unfolding for_from
All-for_from P body zero start h = tt
All-for_from P body (suc rounds) start h =
    All-append P (body start) _ (h start (omega arith) (omega arith))
      (All-for_from P body rounds (suc start) (λ i p q. h i (omega arith) (omega arith)))

pub generate-Extends :
    (n k start : ℕ) (combo : List ℕ) → All (Extends n k start combo) (generate n k start combo)
unfolding generate
generate-Extends n zero start combo = (([], sym (append-nil combo), tt), tt)
generate-Extends n (suc left) start combo =
    All-for_from (Extends n (suc left) start combo) _ (n - left - start) start λ i p q.
      All-mono _ (λ xs e. (i ∷ e.0, e.1 ∙ append_assoc combo (i ∷ []) e.0, (p, omega arith, e.2)))
        (generate-Extends n left (suc i) (combo ++ i ∷ []))

-- the binomial coefficient, by Pascal's rule
pub binomial : ℕ → ℕ → ℕ
binomial n zero = 1
binomial zero (suc k) = 0
binomial (suc n) (suc k) = binomial n k + binomial n (suc k)

pub binomial_above : (n k : ℕ) → n < k → binomial n k ≡ 0
unfolding binomial
binomial_above n zero h = absurd (omega arith)
binomial_above zero (suc k) h = refl
binomial_above (suc n) (suc k) h =
    omega (arith, binomial_above n k (omega arith), binomial_above n (suc k) (omega arith))

-- the loop counts as Pascal's rule does
length-for_from :
    (n left : ℕ) (body : ℕ → List (List ℕ))
    → ((i : ℕ) → length (body i) ≡ binomial (n - suc i) left)
    → (rounds start : ℕ) → n - left - start ≡ rounds
    → length (for_from body rounds start) ≡ binomial (n - start) (suc left)
unfolding for_from
length-for_from n left body h zero start e =
    sym (binomial_above (n - start) (suc left) (omega arith))
length-for_from n left body h (suc rounds) start e =
    rw
      (
        length-append (body start) (for_from body rounds (suc start)),
        h start,
        length-for_from n left body h rounds (suc start) (omega arith),
      )
      (rw split (unfold binomial in refl))
  where
    split : n - start ≡ suc (n - suc start)
    split = omega arith

pub length-generate :
    (n k start : ℕ) (combo : List ℕ) → length (generate n k start combo) ≡ binomial (n - start) k
unfolding generate
length-generate n zero start combo = unfold binomial in refl
length-generate n (suc left) start combo =
    length-for_from n left _ (λ i. length-generate n left (suc i) (combo ++ i ∷ [])) _ start refl

singletons-for_from : (rounds i : ℕ) → singletons rounds i ≡ for_from (λ j. (j ∷ []) ∷ []) rounds i
unfolding singletons for_from
singletons-for_from zero i = refl
singletons-for_from (suc rounds) i = ap (◌∷◌ (i ∷ [])) (singletons-for_from rounds (suc i))

singletons-generate : (n : ℕ) → singletons n 0 ≡ generate n 1 0 []
unfolding generate
singletons-generate n = let e : n - 0 - 0 ≡ n = omega arith in rw e (singletons-for_from n 0)

-- for 1 ≤ k ≤ n the shortcut makes no difference
pub choose-generate : (n k : ℕ) → 1 ≤ k → k ≤ n → choose_combinations n (pos k) ≡ generate n k 0 []
unfolding choose_combinations
choose-generate n zero h h' = absurd (omega arith)
choose-generate n (suc zero) h h' = rw (one_fits n h') (singletons-generate n)
  where
    one_fits : (n : ℕ) → 1 ≤ n → ltb n 1 ≡ false
    one_fits n h = ground arith
choose-generate n (suc (suc k)) h h' = ground arith

pub choose_above : (n k : ℕ) → n < k → choose_combinations n (pos k) ≡ []
unfolding choose_combinations
choose_above n k h = ground arith
