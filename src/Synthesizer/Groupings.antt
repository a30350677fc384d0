-- ===== src/Synthesizer/Groupings.antt =====
-- pkg/synthesizer/pairer.go: `generateCombinations`, all selections that respect the member counts.
pub mod Selections
use composite_dra_driver.Prelude.{
  ℕ, List, [], ◌∷◌, map, ℤ, len_lt, GoMap, insert, lookup_or, length, get_elem?, concat,
  if◌then◌else◌,
}
use composite_dra_driver.Prelude.Run.{Run, returns, ◌>>=◌, deref, for_each}
use composite_dra_driver.Config.{MemberConfig}
use composite_dra_driver.Synthesizer.Devices.{SourceDevice, DeviceMap}
use composite_dra_driver.Synthesizer.Combinations.{choose_combinations}

-- `selected[i] = avail[idx]` for each index of the set
unfoldable pub select : List SourceDevice → List ℕ → Run (List SourceDevice)
select avail = for_each (λ idx. deref (get_elem? avail idx))

-- the body of the loop over the index sets: the selection joined to each combination of the rest
unfoldable pub extend_combos :
    MemberConfig → List SourceDevice → Run (List DeviceMap) → List ℕ → Run (List DeviceMap)
unfolding select
extend_combos member avail rest_combos idx_set = do
  selected ← select avail idx_set
  subs ← rest_combos
  returns (map (insert member.source selected) subs)

unfoldable pub generate_combinations : DeviceMap → List MemberConfig → Run (List DeviceMap)
generate_combinations available [] = returns ([] ∷ [])
generate_combinations available (member ∷ rest) =
    let avail = lookup_or [] member.source available in
    let rest_combos = generate_combinations available rest in
    if len_lt (length avail) member.count then returns [] else do
      results ←
          for_each (extend_combos member avail rest_combos)
            (choose_combinations (length avail) member.count)
      returns (concat results)
