-- ===== src/Synthesizer/Matching/Grouping.antt =====
-- The groups of `pairWithMatchAttribute`: each device stands under the value of its attribute.
use composite_dra_driver.Prelude.{
  ◌≡◌, inl, inr, List, [], ◌∷◌, some, GoString, lookup_or, All-insert, All-lookup_or, All,
  All-append, Option-cases,
}
use composite_dra_driver.Config.{MemberConfig}
use composite_dra_driver.Synthesizer.Devices.{SourceDevice, DeviceMap, get_attribute_string}
use composite_dra_driver.Synthesizer.Groupings.Selections.{AllDevices}
use composite_dra_driver.Synthesizer.Matching.{Groups, add_to_group, group_devices, group_members}

module _ (attribute : GoString) where
  -- the device has this value
  abbrev pub HasValue : GoString → SourceDevice → Type 0
  HasValue val d = get_attribute_string d.attributes attribute ≡ some val

  abbrev pub IsAlignedGroup : GoString × DeviceMap → Type 0
  IsAlignedGroup g = AllDevices (HasValue g.0) g.1

  add_to_group-IsAligned :
      (val source : GoString) (dev : SourceDevice) (groups : Groups)
      → HasValue val dev
      → All IsAlignedGroup groups
      → All IsAlignedGroup (add_to_group val source dev groups)
  unfolding add_to_group
  add_to_group-IsAligned val source dev groups p h =
      All-insert IsAlignedGroup val _ groups
        (All-insert (λ e. All (HasValue val) e.1) source _ _
          (All-append (HasValue val) _ (dev ∷ [])
            (All-lookup_or (λ e. All (HasValue val) e.1) [] source _ tt old) (p, tt))
          old)
        h
    where
      old : AllDevices (HasValue val) (lookup_or [] val groups)
      old = All-lookup_or IsAlignedGroup [] val groups tt h

  group_devices-IsAligned :
      (source : GoString) (devs : List SourceDevice) (groups : Groups)
      → All IsAlignedGroup groups
      → All IsAlignedGroup (group_devices attribute source devs groups)
  unfolding group_devices
  group_devices-IsAligned source [] groups h = h
  group_devices-IsAligned source (dev ∷ devs) groups h =
      elim (Option-cases (get_attribute_string dev.attributes attribute)) [
        | inl e ↦ rw e (group_devices-IsAligned source devs groups h)
        | inr (val, e) ↦ rw e (
            group_devices-IsAligned source devs _
              (add_to_group-IsAligned val source dev groups e h))
      ]

  pub group_members-IsAligned :
      (by_source : DeviceMap) (ms : List MemberConfig) (groups : Groups)
      → All IsAlignedGroup groups
      → All IsAlignedGroup (group_members attribute by_source ms groups)
  unfolding group_members
  group_members-IsAligned by_source [] groups h = h
  group_members-IsAligned by_source (m ∷ ms) groups h =
      group_members-IsAligned by_source ms _
        (group_devices-IsAligned m.source (lookup_or [] m.source by_source) groups h)
