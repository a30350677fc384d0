-- ===== src/Synthesizer/Explicit.antt =====
-- pkg/synthesizer/pairer.go: `pairWithExplicit`, one function for each loop. `consumed` holds, for each
-- source, the names of the devices that earlier pairs took.
pub mod Runs
pub mod Taken
pub mod Exclusive
use composite_dra_driver.Prelude.{
  Bool, true, false, ◌++◌, List, [], ◌∷◌, Option, none, some, ℤ, pos, negsuc, len_lt, GoString,
  codes, str_eq, GoMap, lookup, lookup_or, insert, has, length, take, if◌then◌else◌,
}
use composite_dra_driver.Prelude.Run.{Run, returns, panics, ◌>>=◌}
use composite_dra_driver.Config.{
  SourceConfig, MemberConfig, CompositionConfig, ExplicitNodePool, ExplicitPairConfig,
}
use composite_dra_driver.Resource.{Attributes, int_attribute}
use composite_dra_driver.Synthesizer.Devices.{SourceDevice, CompositeDevice, DeviceMap}
use composite_dra_driver.Synthesizer.Build.{build_composite_device}
use composite_dra_driver.Synthesizer.Matching.{sort_by_name}

abbrev pub Consumed : Type 0
Consumed = GoMap (List GoString)

pub find_pool : GoString → List ExplicitNodePool → Option ExplicitNodePool
find_pool value [] = none
find_pool value (np ∷ nps) = if str_eq np.label value then some np else find_pool value nps

pub no_consumed : List MemberConfig → Consumed → Consumed
no_consumed [] consumed = consumed
no_consumed (m ∷ ms) consumed = no_consumed ms (insert m.source [] consumed)

-- the devices that are not consumed and that the selector matches
pub match_devices : (Attributes → Bool) → List GoString → List SourceDevice → List SourceDevice
match_devices matches taken [] = []
match_devices matches taken (dev ∷ devs) =
    let rest = match_devices matches taken devs in
    if has dev.device_name taken then rest else if matches dev.attributes then dev ∷ rest else rest

-- `matched[:count]`, where `count` is at most the length
pub first_devices : List SourceDevice → ℤ → Run (List SourceDevice)
first_devices matched (pos k) = returns (take k matched)
first_devices matched (negsuc k) = panics

-- what a selector matches of one member's devices
abbrev pub matched_for :
    (GoString → Attributes → Bool)
    → DeviceMap
    → Consumed
    → MemberConfig
    → GoString
    → List SourceDevice
matched_for matches by_source consumed m sel =
    match_devices (matches sel) (lookup_or [] m.source consumed) (lookup_or [] m.source by_source)

-- the loop over the members of one pair; `none` is `valid == false`
pub pair_members :
    (GoString → Attributes → Bool)
    → DeviceMap
    → Consumed
    → GoMap GoString
    → List MemberConfig
    → DeviceMap
    → Run (Option DeviceMap)
unfolding match_devices first_devices
pair_members matches by_source consumed selectors [] combo = returns (some combo)
pair_members matches by_source consumed selectors (m ∷ ms) combo =
    elim (lookup m.source selectors) [
      | none ↦ returns none
      | some sel ↦
          let matched = matched_for matches by_source consumed m sel in
          if len_lt (length matched) m.count then returns none else (do
            chosen ← first_devices matched m.count
            pair_members matches by_source consumed selectors ms (insert m.source chosen combo))
    ]

-- `consumed[src][dev.DeviceName] = true` for the devices of one source
consume_devices : GoString → List SourceDevice → Consumed → Consumed
consume_devices src [] consumed = consumed
consume_devices src (dev ∷ devs) consumed =
    consume_devices src devs (insert src (dev.device_name ∷ lookup_or [] src consumed) consumed)

pub consume : DeviceMap → Consumed → Consumed
unfolding consume_devices
consume [] consumed = consumed
consume ((src, devs) ∷ combo) consumed = consume combo (consume_devices src devs consumed)

-- the rail and the NUMA node that the pair states
pub place : ExplicitPairConfig → CompositeDevice → CompositeDevice
place ep cd = record {
  name = cd.name;
  attributes =
      insert (codes "composite/railIndex") (int_attribute ep.rail)
        (insert (codes "composite/numaNode") (int_attribute ep.numa) cd.attributes);
  mapping = record cd.mapping { rail_index = ep.rail; numa_node = ep.numa };
}

module _ (range_combo : DeviceMap → DeviceMap) (sources : GoMap SourceConfig)
    (matches : GoString → Attributes → Bool) (comp : CompositionConfig)
    (by_source : DeviceMap) where
  -- the loop over `pool.Pairs`
  unfoldable pub explicit_pairs : List ExplicitPairConfig → Consumed → Run (List CompositeDevice)
  unfolding pair_members consume place
  explicit_pairs [] consumed = returns []
  explicit_pairs (ep ∷ eps) consumed = do
    found ← pair_members matches by_source consumed ep.selectors comp.members []
    elim found [
      | none ↦ explicit_pairs eps consumed
      | some combo ↦ (do
        cd ← build_composite_device range_combo sources comp combo
        rest ← explicit_pairs eps (consume combo consumed)
        returns (place ep cd ∷ rest))
    ]

unfoldable pub pair_with_explicit :
    (DeviceMap → DeviceMap)
    → GoMap SourceConfig
    → Option (GoString → Attributes → Bool)
    → GoMap GoString
    → CompositionConfig
    → DeviceMap
    → Run (List CompositeDevice)
unfolding find_pool no_consumed explicit_pairs
pair_with_explicit range_combo sources none node_labels comp by_source = returns []
pair_with_explicit range_combo sources (some matches) node_labels comp by_source =
    elim (find_pool (lookup_or [] comp.node_pool_label_key node_labels) comp.node_pools) [
      | none ↦ returns []
      | some pool ↦ (do
        result ←
            explicit_pairs range_combo sources matches comp by_source pool.pairs
              (no_consumed comp.members [])
        returns (sort_by_name result))
    ]
