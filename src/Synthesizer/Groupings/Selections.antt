-- ===== src/Synthesizer/Groupings/Selections.antt =====
-- `generateCombinations` selects from what is available, as many devices as the counts say, and
-- never indexes out of range.
use composite_dra_driver.Prelude.{
  ℕ, zero, suc, ◌<◌, ◌≡◌, inl, inr, List, [], ◌∷◌, ℤ, pos, negsuc, len_lt, arith, insert, lookup_or,
  All-insert, All-lookup_or, length, get_elem?, All, All-concat, All-map, All-mono, All-of_Elem,
  Bool-cases,
}
use composite_dra_driver.Prelude.Run.{Run, deref, Returns, Returns-bind, Returns-for_each}
use composite_dra_driver.Config.{MemberConfig}
use composite_dra_driver.Synthesizer.Devices.{SourceDevice, DeviceMap}
use composite_dra_driver.Synthesizer.Combinations.{choose_combinations}
use composite_dra_driver.Synthesizer.Combinations.Sound.{IsChoice}
use composite_dra_driver.Synthesizer.Combinations.Complete.{choose_combinations_exact}
use composite_dra_driver.Synthesizer.Groupings.{select, extend_combos, generate_combinations}

-- the device at an index in range
at_index :
    (Q : SourceDevice → Type 0) (avail : List SourceDevice) (i : ℕ)
    → All Q avail
    → i < length avail
    → Returns Q (deref (get_elem? avail i))
at_index Q [] i h p = absurd (omega arith)
at_index Q (dev ∷ avail) zero h p = h.0
at_index Q (dev ∷ avail) (suc i) h p = at_index Q avail i h.1 (omega arith)

in_range : (n k start : ℕ) (xs : List ℕ) → IsChoice n k start xs → All (λ i. i < n) xs
in_range n zero start [] c = tt
in_range n zero start (i ∷ xs) c = absurd c
in_range n (suc k) start [] c = tt
in_range n (suc k) start (i ∷ xs) c = (c.1, in_range n k (suc i) xs c.2)

module _ (Q : SourceDevice → Type 0) where
  -- every device of the map satisfies `Q`
  abbrev pub AllDevices : DeviceMap → Type 0
  AllDevices = All (λ e. All Q e.1)

  select-Q :
      (avail : List SourceDevice) (xs : List ℕ)
      → All Q avail
      → All (λ i. i < length avail) xs
      → Returns (All Q) (select avail xs)
  unfolding select
  select-Q avail xs h r =
      Returns-for_each (λ i. i < length avail) Q _ xs (λ i p. at_index Q avail i h p) r

  extend-Q :
      (m : MemberConfig) (avail : List SourceDevice) (subs : Run (List DeviceMap)) (xs : List ℕ)
      → All Q avail
      → Returns (All AllDevices) subs
      → All (λ i. i < length avail) xs
      → Returns (All AllDevices) (extend_combos m avail subs xs)
  unfolding extend_combos
  extend-Q m avail subs xs h s r =
      Returns-bind (All Q) (All AllDevices) (select avail xs) _ (select-Q avail xs h r)
        λ selected q. Returns-bind (All AllDevices) (All AllDevices) subs _ s λ combos c.
          All-map AllDevices (insert m.source selected) combos
            (All-mono combos (λ combo a. All-insert (λ e. All Q e.1) m.source selected combo q a) c)

choose_zero : (n : ℕ) → choose_combinations n (pos zero) ≡ []
unfolding choose_combinations
choose_zero n = ground arith

choices_in_range : (n : ℕ) (c : ℤ) → All (All (λ i. i < n)) (choose_combinations n c)
choices_in_range n (negsuc k) = unfold choose_combinations in tt
choices_in_range n (pos zero) = rw (choose_zero n) tt
choices_in_range n (pos (suc k)) =
    All-of_Elem _ _ λ xs m.
      in_range n (suc k) 0 xs (((choose_combinations_exact n (suc k) (omega arith)).0 xs).0 m)

module _ (Q : SourceDevice → Type 0) (available : DeviceMap) (h : AllDevices Q available) where
  -- The combinations of available devices that satisfy `Q` hold such devices only; and there is a
  -- result, whatever the members and their counts.
  pub generate-AllDevices :
      (ms : List MemberConfig) → Returns (All (AllDevices Q)) (generate_combinations available ms)
  unfolding generate_combinations
  generate-AllDevices [] = (tt, tt)
  generate-AllDevices (m ∷ ms) =
      elim (Bool-cases (len_lt (length (lookup_or [] m.source available)) m.count)) [
        | inl short ↦ rw short tt
        | inr enough ↦ rw enough (
            Returns-bind (All (All (AllDevices Q))) (All (AllDevices Q)) _ _
              (Returns-for_each (All (λ i. i < length avail)) (All (AllDevices Q)) _ _
                (λ xs r. extend-Q Q m avail _ xs found (generate-AllDevices ms) r)
                (choices_in_range (length avail) m.count))
              (λ results r. All-concat (AllDevices Q) results r))
      ]
    where
      avail : List SourceDevice
      avail = lookup_or [] m.source available

      found : All Q avail
      found = All-lookup_or (λ e. All Q e.1) [] m.source available tt h
