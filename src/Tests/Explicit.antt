-- ===== src/Tests/Explicit.antt =====
-- Explicit pairing at a concrete input.
use composite_dra_driver.Prelude.{
  refl, arith, Bool, true, List, [], ◌∷◌, some, pos, GoString, GoMap, codes, str_eq, lookup,
  lookup_or, insert, has, has_suffix, truncate, str_lt, decimal, str_eq_iff,
}
use composite_dra_driver.Prelude.Run.{Run, returns, panics}
use composite_dra_driver.Config.{SourceConfig, CompositionConfig, ExplicitPairConfig}
use composite_dra_driver.Resource.{Attributes}
use composite_dra_driver.Synthesizer.Devices.{
  CompositeDevice, detect_numa_node, sanitize_name, qualified_attr_name,
}
use composite_dra_driver.Synthesizer.Build.{build_composite_device}
use composite_dra_driver.Synthesizer.Build.Origin.{AllNamed}
use composite_dra_driver.Synthesizer.Matching.Order.{Pairs}
use composite_dra_driver.Synthesizer.Explicit.{explicit_pairs, pair_with_explicit}
use composite_dra_driver.Synthesizer.Explicit.Exclusive.{
  AreExclusive, pair_with_explicit-AreExclusive,
}
use composite_dra_driver.Tests.Samples.{source, pair, member, devices}

abbrev sources : GoMap SourceConfig
sources = (codes "gpu", source (codes "gpu") (codes "g.io")) ∷ []

sources_named : AllNamed sources
unfolding lookup
sources_named k src e = ground (arith, str_eq_iff (codes "gpu") k)

abbrev ep : ExplicitPairConfig
ep = record { selectors = (codes "gpu", codes "any") ∷ []; rail = pos 0; numa = pos 0 }

abbrev comp : CompositionConfig
comp = record pair {
  members = member (codes "gpu") ∷ [];
  constraints = [];
  pairing_mode = codes "explicit";
  node_pool_label_key = codes "pool";
  node_pools = record { label = codes "a"; pairs = ep ∷ ep ∷ [] } ∷ [];
}

abbrev any : GoString → Attributes → Bool
any expression attrs = true

abbrev run : Run (List CompositeDevice)
run =
    pair_with_explicit (λ combo. combo) sources (some any) ((codes "pool", codes "a") ∷ []) comp
      devices

-- what a run that returns comes to
abbrev outcome : Run (List CompositeDevice) → List CompositeDevice
outcome (returns cds) = cds
outcome panics = []

pair_with_explicit-AreExclusive_example : Pairs AreExclusive (outcome run)
unfolding pair_with_explicit explicit_pairs build_composite_device lookup insert lookup_or str_eq
    codes has detect_numa_node has_suffix sanitize_name truncate qualified_attr_name str_lt decimal
pair_with_explicit-AreExclusive_example =
    pair_with_explicit-AreExclusive (λ combo. combo) sources sources_named any comp devices
      ((codes "pool", codes "a") ∷ []) (outcome run) refl
