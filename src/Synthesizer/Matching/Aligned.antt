-- ===== src/Synthesizer/Matching/Aligned.antt =====
-- Pairing by an attribute: the members of a composite device share its value.
use mathlib.Core.Path.{subst}
use composite_dra_driver.Prelude.{
  ◌≡◌, inl, inr, List, [], ◌∷◌, some, GoString, GoMap, All, All-at, All-of_Elem, All-concat, Elem,
  Bool-cases, concat,
}
use composite_dra_driver.Prelude.Run.{
  Run, returns, panics, ◌>>=◌, for_each, IfReturns, IfReturns-bind, IfReturns-for_each,
  IfReturns-at, IfReturns-mono, Returns,
}
use composite_dra_driver.Config.{SourceConfig, ConstraintConfig, CompositionConfig}
use composite_dra_driver.Synthesizer.Devices.{CompositeDevice, DeviceMap, get_attribute_string}
use composite_dra_driver.Synthesizer.Groupings.{generate_combinations}
use composite_dra_driver.Synthesizer.Groupings.Selections.{AllDevices, generate-AllDevices}
use composite_dra_driver.Synthesizer.Build.{build_composite_device}
use composite_dra_driver.Synthesizer.Build.Members.{build-AllMembers}
use composite_dra_driver.Synthesizer.Matching.{
  Groups, group_members, pair_group, pair_by, pair_with_match_attribute, all_present, sort_by_name,
}
use composite_dra_driver.Synthesizer.Matching.Grouping.{
  HasValue, IsAlignedGroup, group_members-IsAligned,
}
use composite_dra_driver.Synthesizer.Matching.Order.{All-sort_by_name}

-- all members have one value of the attribute
abbrev pub IsAligned : GoString → CompositeDevice → Type 0
IsAligned attribute cd =
    (val : GoString) × All (λ m. get_attribute_string m.attributes attribute ≡ some val)
      cd.mapping.members

-- An order of iteration shows entries of the map only.
abbrev pub IsOrder : (Groups → Groups) → Type 0
IsOrder visit = (groups : Groups) (g : GoString × DeviceMap) → Elem g (visit groups) → Elem g groups

IfReturns-of_Returns {ℓ} : {A : Type ℓ} (P : A → Type 0) (m : Run A) → Returns P m → IfReturns P m
IfReturns-of_Returns P (returns a) h = h
IfReturns-of_Returns P panics h = tt

module _ (range_combo : DeviceMap → DeviceMap) (sources : GoMap SourceConfig)
    (comp : CompositionConfig) (attribute : GoString) where
  pair_group-IsAligned :
      (g : GoString × DeviceMap)
      → IsAlignedGroup attribute g
      → IfReturns (All (IsAligned attribute)) (pair_group range_combo sources comp g)
  unfolding pair_group
  pair_group-IsAligned (val, group) h = elim (Bool-cases (all_present group comp.members)) [
    | inr e ↦ rw e tt
    | inl e ↦ rw e (
        IfReturns-bind (All (AllDevices (HasValue attribute val))) (All (IsAligned attribute))
          (generate_combinations group comp.members)
          (for_each (build_composite_device range_combo sources comp))
          (IfReturns-of_Returns (All (AllDevices (HasValue attribute val)))
            (generate_combinations group comp.members)
            (generate-AllDevices (HasValue attribute val) group h comp.members))
          λ combos c.
            IfReturns-for_each (AllDevices (HasValue attribute val)) (IsAligned attribute)
              (build_composite_device range_combo sources comp) combos
              (λ combo a.
                IfReturns-mono
                  (λ cd.
                    All (λ m. get_attribute_string m.attributes attribute ≡ some val)
                      cd.mapping.members)
                  (IsAligned attribute) (build_composite_device range_combo sources comp combo)
                  (λ cd m. (val, m))
                  (build-AllMembers (λ attrs. get_attribute_string attrs attribute ≡ some val)
                    range_combo sources comp combo a))
              c)
  ]

-- Whatever the order of iteration, each composite device of `pairWithMatchAttribute` has members that
-- all carry one value of the constraint's attribute.
pub pair_with_match_attribute-IsAligned :
    (range_combo : DeviceMap → DeviceMap) (sources : GoMap SourceConfig) (visit : Groups → Groups)
    (comp : CompositionConfig) (by_source : DeviceMap) (c : ConstraintConfig)
    (cs : List ConstraintConfig) (cds : List CompositeDevice)
    → IsOrder visit
    → comp.constraints ≡ c ∷ cs
    → pair_with_match_attribute range_combo sources visit comp by_source ≡ returns cds
    → All (IsAligned c.attribute) cds
unfolding pair_with_match_attribute
pair_with_match_attribute-IsAligned range_combo sources visit comp by_source c cs cds order e h =
    IfReturns-at (All (IsAligned c.attribute)) _ cds pairs (
      subst
        (λ constraints. pair_by range_combo sources visit comp by_source constraints ≡ returns cds)
        e h)
  where
    groups : Groups
    groups = group_members c.attribute by_source comp.members []

    aligned : All (IsAlignedGroup c.attribute) (visit groups)
    aligned = All-of_Elem (IsAlignedGroup c.attribute) (visit groups) λ g m.
        All-at (IsAlignedGroup c.attribute) groups
          (group_members-IsAligned c.attribute by_source comp.members [] tt) g (order groups g m)

    pairs : IfReturns (All (IsAligned c.attribute)) (do
      results ← for_each (pair_group range_combo sources comp) (visit groups)
      returns (sort_by_name (concat results)))
    pairs =
        IfReturns-bind (All (All (IsAligned c.attribute))) (All (IsAligned c.attribute))
          (for_each (pair_group range_combo sources comp) (visit groups))
          (λ results. returns (sort_by_name (concat results)))
          (IfReturns-for_each (IsAlignedGroup c.attribute) (All (IsAligned c.attribute))
            (pair_group range_combo sources comp) (visit groups)
            (pair_group-IsAligned range_combo sources comp c.attribute) aligned)
          (λ results r.
            All-sort_by_name (IsAligned c.attribute) _
              (All-concat (IsAligned c.attribute) results r))
