-- ===== src/Synthesizer/Matching.antt =====
-- pkg/synthesizer/pairer.go: pairing by a shared attribute, and by one source alone. `visit` is the
-- order in which `range` goes through the map of groups, which Go leaves open.
pub mod Order
pub mod Grouping
pub mod Aligned
pub mod Runs
use composite_dra_driver.Prelude.{
  Bool, true, false, ◌++◌, List, [], ◌∷◌, Option, none, some, len_lt, GoString, str_lt, GoMap,
  lookup_or, insert, length, concat, if◌then◌else◌,
}
use composite_dra_driver.Prelude.Run.{Run, returns, panics, ◌>>=◌, for_each}
use composite_dra_driver.Config.{SourceConfig, MemberConfig, ConstraintConfig, CompositionConfig}
use composite_dra_driver.Synthesizer.Devices.{
  SourceDevice, CompositeDevice, DeviceMap, get_attribute_string,
}
use composite_dra_driver.Synthesizer.Groupings.{generate_combinations}
use composite_dra_driver.Synthesizer.Build.{build_composite_device}

-- `sort.Slice` by name; the order of equal names is left open by Go
pub insert_by_name : CompositeDevice → List CompositeDevice → List CompositeDevice
insert_by_name cd [] = cd ∷ []
insert_by_name cd (x ∷ xs) = if str_lt x.name cd.name then x ∷ insert_by_name cd xs else cd ∷ x ∷ xs

pub sort_by_name : List CompositeDevice → List CompositeDevice
unfolding insert_by_name
sort_by_name [] = []
sort_by_name (cd ∷ cds) = insert_by_name cd (sort_by_name cds)

abbrev pub Groups : Type 0
Groups = GoMap DeviceMap

-- `groups[val][source] = append(groups[val][source], dev)`
pub add_to_group : GoString → GoString → SourceDevice → Groups → Groups
add_to_group val source dev groups =
    let group = lookup_or [] val groups in
    insert val (insert source (lookup_or [] source group ++ dev ∷ []) group) groups

pub group_devices : GoString → GoString → List SourceDevice → Groups → Groups
unfolding add_to_group
group_devices attribute source [] groups = groups
group_devices attribute source (dev ∷ devs) groups =
    group_devices attribute source devs (elim (get_attribute_string dev.attributes attribute) [
      | none ↦ groups
      | some val ↦ add_to_group val source dev groups
    ])

pub group_members : GoString → DeviceMap → List MemberConfig → Groups → Groups
unfolding group_devices
group_members attribute by_source [] groups = groups
group_members attribute by_source (m ∷ ms) groups =
    group_members attribute by_source ms
      (group_devices attribute m.source (lookup_or [] m.source by_source) groups)

pub all_present : DeviceMap → List MemberConfig → Bool
all_present group [] = true
all_present group (m ∷ ms) =
    if len_lt (length (lookup_or [] m.source group)) m.count then false else all_present group ms

module _ (range_combo : DeviceMap → DeviceMap) (sources : GoMap SourceConfig) where
  -- the devices of one group
  unfoldable pub pair_group : CompositionConfig → GoString × DeviceMap → Run (List CompositeDevice)
  unfolding all_present
  pair_group comp (val, group) =
      if all_present group comp.members
      then (do
        combos ← generate_combinations group comp.members
        for_each (build_composite_device range_combo sources comp) combos)
      else returns []

  -- by the first constraint, `comp.Constraints[0]`
  unfoldable pub pair_by :
      (Groups → Groups)
      → CompositionConfig
      → DeviceMap
      → List ConstraintConfig
      → Run (List CompositeDevice)
  unfolding group_members pair_group sort_by_name
  pair_by visit comp by_source [] = panics
  pair_by visit comp by_source (constraint ∷ cs) = do
    results ←
        for_each (pair_group comp)
          (visit (group_members constraint.attribute by_source comp.members []))
    returns (sort_by_name (concat results))

  unfoldable pub pair_with_match_attribute :
      (Groups → Groups) → CompositionConfig → DeviceMap → Run (List CompositeDevice)
  unfolding pair_by
  pair_with_match_attribute visit comp by_source = pair_by visit comp by_source comp.constraints

  unfoldable pub pair_single_source : CompositionConfig → DeviceMap → Run (List CompositeDevice)
  unfolding sort_by_name
  pair_single_source comp by_source = do
    combos ← generate_combinations by_source comp.members
    results ← for_each (build_composite_device range_combo sources comp) combos
    returns (sort_by_name results)
