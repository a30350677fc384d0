-- ===== src/Synthesizer/Combinations.antt =====
-- pkg/synthesizer/pairer.go: `chooseCombinations`, the k-element index sets below n.
pub mod Sound
pub mod Complete
use composite_dra_driver.Prelude.{
  ℕ, zero, suc, ◌+◌, ◌-◌, List, [], ◌∷◌, ◌++◌, map, ℤ, pos, negsuc, ltb, ◌==◌, ◌||◌, if◌then◌else◌,
}

-- for i := start; i < start + rounds; i++ { body(i) }, where `body` appends what it returns
unfoldable pub for_from : (ℕ → List (List ℕ)) → ℕ → ℕ → List (List ℕ)
for_from body zero i = []
for_from body (suc rounds) i = body i ++ for_from body rounds (suc i)

-- `generate(start, depth)` with `left` for `k - depth`. `combo` holds the slots below `depth`: a slot
-- from there on is written before it is read. The loop runs while `i <= n-(k-depth)`.
unfoldable pub generate : ℕ → ℕ → ℕ → List ℕ → List (List ℕ)
generate n zero start combo = combo ∷ []
generate n (suc left) start combo =
    for_from (λ i. generate n left (suc i) (combo ++ i ∷ [])) (n - left - start) start

-- the result for k == 1: one set for each index from `i` on
unfoldable pub singletons : ℕ → ℕ → List (List ℕ)
singletons zero i = []
singletons (suc rounds) i = (i ∷ []) ∷ singletons rounds (suc i)

unfoldable pub choose_combinations : ℕ → ℤ → List (List ℕ)
choose_combinations n (negsuc k) = []
choose_combinations n (pos k) =
    if ltb n k || k == 0 then [] else if k == 1 then singletons n 0 else generate n k 0 []
