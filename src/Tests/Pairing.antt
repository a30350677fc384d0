-- ===== src/Tests/Pairing.antt =====
-- The synthesizer at concrete inputs.
use composite_dra_driver.Prelude.{
  GoMap, lookup, insert, lookup_or, str_eq, codes, has_suffix, truncate, str_lt, decimal, ℕ, ◌≡◌,
  ◌↔◌, refl, List, [], ◌∷◌, none, pos, Elem, length, arith, All,
}
use composite_dra_driver.Prelude.Run.{Run, returns, panics, for_each}
use composite_dra_driver.Config.{SourceConfig}
use composite_dra_driver.Synthesizer.Devices.{
  CompositeDevice, get_attribute_string, detect_numa_node, sanitize_name, qualified_attr_name,
}
use composite_dra_driver.Synthesizer.Groupings.{generate_combinations, select, extend_combos}
use composite_dra_driver.Synthesizer.Build.{build_composite_device}
use composite_dra_driver.Synthesizer.Combinations.{choose_combinations, singletons}
use composite_dra_driver.Synthesizer.Combinations.Sound.{IsChoice, binomial}
use composite_dra_driver.Synthesizer.Combinations.Complete.{choose_combinations_exact}
use composite_dra_driver.Synthesizer.Matching.{pair_with_match_attribute}
use composite_dra_driver.Synthesizer.Matching.Aligned.{
  IsAligned, pair_with_match_attribute-IsAligned,
}
use composite_dra_driver.Synthesizer.Pairer.{new_pairer, compute_pairs}
use composite_dra_driver.Synthesizer.Pairer.NoPanic.{compute_pairs-returns}
use composite_dra_driver.Tests.Samples.{built_order, source, config, pair, root, devices}
use composite_dra_driver.Tests.Configs.{config_valid}

abbrev sources : GoMap SourceConfig
sources =
    (codes "gpu", source (codes "gpu") (codes "g.io"))
    ∷ (codes "nic", source (codes "nic") (codes "n.io"))
    ∷ []

choose_combinations_exact_example :
    ((xs : List ℕ) → Elem xs (choose_combinations 4 (pos 2)) ↔ IsChoice 4 2 0 xs)
    × (length (choose_combinations 4 (pos 2)) ≡ binomial 4 2)
choose_combinations_exact_example = choose_combinations_exact 4 2 (omega arith)

compute_pairs-returns_example :
    (cds : List CompositeDevice) × (compute_pairs built_order
        (new_pairer config.sources config.compositions none [])
        devices
      ≡ returns cds)
compute_pairs-returns_example =
    compute_pairs-returns config none [] built_order devices config_valid

-- what a run that returns comes to
abbrev outcome : Run (List CompositeDevice) → List CompositeDevice
outcome (returns cds) = cds
outcome panics = []

pair_with_match_attribute-IsAligned_example :
    All
      (IsAligned (codes "root"))
      (outcome (pair_with_match_attribute (λ combo. combo) sources (λ gs. gs) pair devices))
unfolding pair_with_match_attribute generate_combinations select extend_combos choose_combinations
    build_composite_device for_each lookup insert lookup_or str_eq codes get_attribute_string
    detect_numa_node has_suffix sanitize_name truncate qualified_attr_name str_lt decimal singletons
pair_with_match_attribute-IsAligned_example =
    pair_with_match_attribute-IsAligned (λ combo. combo) sources (λ gs. gs) pair devices root []
      (outcome (pair_with_match_attribute (λ combo. combo) sources (λ gs. gs) pair devices))
      (λ groups g m. m) refl refl
