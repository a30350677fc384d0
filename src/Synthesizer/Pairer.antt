-- ===== src/Synthesizer/Pairer.antt =====
-- pkg/synthesizer/pairer.go: the `Pairer`, its filters and the choice of a mode. `cel_filter` is a
-- `CELFilter`'s `Match`, and `none` where the filter could not be built.
pub mod NoPanic
pub mod Built
pub mod Names
use composite_dra_driver.Prelude.{
  Bool, List, [], ◌∷◌, Option, none, some, GoString, codes, is_empty, str_eq, GoMap, lookup,
  lookup_or, insert, concat, if◌then◌else◌,
}
use composite_dra_driver.Prelude.Run.{Run, returns, ◌>>=◌, for_each}
use composite_dra_driver.Config.{SourceConfig, MemberConfig, FilterConfig, CompositionConfig}
use composite_dra_driver.Config.Validation.{is_nil}
use composite_dra_driver.Resource.{Attributes}
use composite_dra_driver.Synthesizer.Devices.{SourceDevice, CompositeDevice, DeviceMap}
use composite_dra_driver.Synthesizer.Matching.{
  Groups, pair_with_match_attribute, pair_single_source,
}
use composite_dra_driver.Synthesizer.Explicit.{pair_with_explicit}

pub record Pairer : Type 0 where
  pub sources : GoMap SourceConfig
  pub compositions : List CompositionConfig
  pub cel_filter : Option (GoString → Attributes → Bool)
  pub node_labels : GoMap GoString

source_map : List SourceConfig → GoMap SourceConfig → GoMap SourceConfig
source_map [] m = m
source_map (s ∷ ss) m = source_map ss (insert s.name s m)

unfoldable pub new_pairer :
    List SourceConfig
    → List CompositionConfig
    → Option (GoString → Attributes → Bool)
    → GoMap GoString
    → Pairer
unfolding source_map
new_pairer sources compositions cel_filter node_labels = record {
  sources = source_map sources [];
  compositions = compositions;
  cel_filter = cel_filter;
  node_labels = node_labels;
}

-- the devices that the expression matches
pub filter_devices : (Attributes → Bool) → List SourceDevice → List SourceDevice
filter_devices matches [] = []
filter_devices matches (dev ∷ devs) =
    let rest = filter_devices matches devs in if matches dev.attributes then dev ∷ rest else rest

pub apply_filter :
    Option (GoString → Attributes → Bool) → List SourceDevice → FilterConfig → List SourceDevice
unfolding filter_devices
apply_filter none devices f = devices
apply_filter (some matches) devices f =
    if is_empty f.cel then devices else filter_devices (matches f.cel) devices

-- the devices of each member's source, filtered
filter_members :
    Option (GoString → Attributes → Bool)
    → GoMap FilterConfig
    → DeviceMap
    → List MemberConfig
    → DeviceMap
    → DeviceMap
unfolding apply_filter
filter_members cel_filter filters by_source [] filtered = filtered
filter_members cel_filter filters by_source (m ∷ ms) filtered =
    let devices = lookup_or [] m.source by_source in
    filter_members cel_filter filters by_source ms (
      insert m.source
        (elim (lookup m.source filters) [
          | some f ↦ apply_filter cel_filter devices f
          | none ↦ devices
        ])
        filtered)

-- the orders in which `range` visits the groups, and the sources of a combination
pub record RangeOrders : Type 0 where
  pub groups : Groups → Groups
  pub combo : DeviceMap → DeviceMap

module _ (visit : RangeOrders) (p : Pairer) where
  unfoldable pub compute_for_composition :
      DeviceMap → CompositionConfig → Run (List CompositeDevice)
  unfolding filter_members
  compute_for_composition by_source comp =
      let filtered = filter_members p.cel_filter comp.filters by_source comp.members [] in
      if str_eq comp.pairing_mode (codes "explicit")
      then pair_with_explicit visit.combo p.sources p.cel_filter p.node_labels comp filtered
      else if is_nil comp.constraints
      then pair_single_source visit.combo p.sources comp filtered
      else pair_with_match_attribute visit.combo p.sources visit.groups comp filtered

  unfoldable pub compute_pairs : DeviceMap → Run (List CompositeDevice)
  unfolding compute_for_composition
  compute_pairs by_source = do
    results ← for_each (compute_for_composition by_source) p.compositions
    returns (concat results)
