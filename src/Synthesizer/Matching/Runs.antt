-- ===== src/Synthesizer/Matching/Runs.antt =====
-- With members that are configured and counted, pairing by an attribute or from one source returns.
use composite_dra_driver.Prelude.{
  ◌≢◌, refl, inl, inr, List, [], ◌∷◌, GoString, GoMap, All, All-of_all, Bool-cases,
}
use composite_dra_driver.Prelude.Run.{
  Run, ◌>>=◌, for_each, Returns, Returns-bind, Returns-for_each, Returns-mono,
}
use composite_dra_driver.Config.{SourceConfig, ConstraintConfig, CompositionConfig}
use composite_dra_driver.Config.Validation.Spec.{AtLeastOne}
use composite_dra_driver.Synthesizer.Devices.{DeviceMap}
use composite_dra_driver.Synthesizer.Groupings.{generate_combinations}
use composite_dra_driver.Synthesizer.Groupings.Selections.{AllDevices, generate-AllDevices}
use composite_dra_driver.Synthesizer.Build.{build_composite_device}
use composite_dra_driver.Synthesizer.Build.Members.{AllConfigured, build-Returns}
use composite_dra_driver.Synthesizer.Matching.{
  Groups, pair_by, pair_group, pair_with_match_attribute, pair_single_source, all_present,
  group_members,
}

-- it returns, whatever it returns
abbrev pub Runs {ℓ} : {A : Type ℓ} → Run A → Type 0
Runs = Returns (λ _. Unit)

-- what the pairer needs of a composition
pub record IsPairable (sources : GoMap SourceConfig) (comp : CompositionConfig) : Type 0 where
  pub some_member : comp.members ≢ []
  pub configured : AllConfigured sources comp.members
  pub counted : All (λ m. AtLeastOne m.count) comp.members

module _ (range_combo : DeviceMap → DeviceMap) (sources : GoMap SourceConfig)
    (comp : CompositionConfig) (v : IsPairable sources comp) where
  pub builds : (combo : DeviceMap) → Runs (build_composite_device range_combo sources comp combo)
  builds combo =
      Returns-mono _ (λ _. Unit) (build_composite_device range_combo sources comp combo)
        (λ cd h. tt) (build-Returns range_combo sources comp combo v.some_member v.configured)

  builds_all :
      (combos : List DeviceMap)
      → Runs (for_each (build_composite_device range_combo sources comp) combos)
  builds_all combos =
      Returns-mono (All (λ _. Unit)) (λ _. Unit)
        (for_each (build_composite_device range_combo sources comp) combos) (λ cds h. tt)
        (Returns-for_each (λ _. Unit) (λ _. Unit) (build_composite_device range_combo sources comp)
          combos (λ combo h. builds combo) (All-of_all (λ _. Unit) (λ _. tt) combos))

  any_devices : (m : DeviceMap) → AllDevices (λ _. Unit) m
  any_devices [] = tt
  any_devices ((k, devs) ∷ m) = (All-of_all (λ _. Unit) (λ _. tt) devs, any_devices m)

  combines :
      (available : DeviceMap)
      → Runs (do
        combos ← generate_combinations available comp.members
        for_each (build_composite_device range_combo sources comp) combos)
  combines available =
      Returns-bind (All (AllDevices (λ _. Unit))) (λ _. Unit)
        (generate_combinations available comp.members)
        (for_each (build_composite_device range_combo sources comp))
        (generate-AllDevices (λ _. Unit) available (any_devices available) comp.members)
        (λ combos h. builds_all combos)

  pair_group-Runs : (g : GoString × DeviceMap) → Runs (pair_group range_combo sources comp g)
  unfolding pair_group
  pair_group-Runs (val, group) = elim (Bool-cases (all_present group comp.members)) [
    | inl e ↦ rw e (combines group)
    | inr e ↦ rw e tt
  ]

  pub pair_by-Runs :
      (visit : Groups → Groups) (by_source : DeviceMap) (cs : List ConstraintConfig)
      → cs ≢ []
      → Runs (pair_by range_combo sources visit comp by_source cs)
  unfolding pair_by
  pair_by-Runs visit by_source [] h = absurd (h refl)
  pair_by-Runs visit by_source (c ∷ cs) h =
      Returns-bind (All (λ _. Unit)) (λ _. Unit)
        (for_each (pair_group range_combo sources comp) groups) _
        (Returns-for_each (λ _. Unit) (λ _. Unit) (pair_group range_combo sources comp) groups
          (λ g _. pair_group-Runs g) (All-of_all (λ _. Unit) (λ _. tt) groups))
        (λ results _. tt)
    where
      groups : Groups
      groups = visit (group_members c.attribute by_source comp.members [])

  pub single-Runs :
      (by_source : DeviceMap) → Runs (pair_single_source range_combo sources comp by_source)
  unfolding pair_single_source
  single-Runs by_source =
      Returns-bind (All (AllDevices (λ _. Unit))) (λ _. Unit)
        (generate_combinations by_source comp.members) _
        (generate-AllDevices (λ _. Unit) by_source (any_devices by_source) comp.members)
        (λ combos _.
          Returns-bind (λ _. Unit) (λ _. Unit)
            (for_each (build_composite_device range_combo sources comp) combos) _
            (builds_all combos) (λ cds _. tt))

  pub match-Runs :
      (visit : Groups → Groups) (by_source : DeviceMap)
      → comp.constraints ≢ []
      → Runs (pair_with_match_attribute range_combo sources visit comp by_source)
  unfolding pair_with_match_attribute
  match-Runs visit by_source h = pair_by-Runs visit by_source comp.constraints h
