-- ===== src/Tests/Publishing.antt =====
-- The publisher, the filter's cache and a recomputation at concrete inputs.
use composite_dra_driver.Prelude.{
  ℕ, ◌≡◌, ◌≤◌, refl, List, [], ◌∷◌, map, concat, true, none, some, pos, length, GoString, codes,
  str_eq, lookup, insert, lookup_or, has_suffix, truncate, str_lt, decimal, All,
}
use composite_dra_driver.Prelude.Run.{Run, returns, panics, for_each}
use composite_dra_driver.Prelude.Result.{Result, ok, err}
use composite_dra_driver.Resource.{string_attribute}
use composite_dra_driver.Store.Devices.{DeviceStore, new_device_store, get, key, replace_all}
use composite_dra_driver.Synthesizer.Devices.{
  CompositeDevice, get_attribute_string, detect_numa_node, sanitize_name, qualified_attr_name,
}
use composite_dra_driver.Synthesizer.Groupings.{generate_combinations, select, extend_combos}
use composite_dra_driver.Synthesizer.Build.{build_composite_device}
use composite_dra_driver.Synthesizer.Combinations.{choose_combinations, singletons}
use composite_dra_driver.Synthesizer.Matching.{pair_with_match_attribute}
use composite_dra_driver.Synthesizer.Pairer.{new_pairer, compute_for_composition, compute_pairs}
use composite_dra_driver.Synthesizer.Publisher.{
  to_device, build_slices, pool_name, driver_resources,
}
use composite_dra_driver.Synthesizer.Publisher.Slices.{IsFilled, slice_devices, build_slices_lem}
use composite_dra_driver.Synthesizer.Publisher.Pools.{
  IsVisit, devices_of, pool_with, driver_resources_lem,
}
use composite_dra_driver.Synthesizer.Watcher.{
  Watcher, ResourceSlice, is_on_node, get_source_devices,
}
use composite_dra_driver.Synthesizer.Cel.{Value, CelDevice, bool_value, evaluate, match_attributes}
use composite_dra_driver.Synthesizer.Watcher.Sources.{
  source_of, slice_source_devices, is_of_source, of_slices, get_source_devices_lem,
}
use composite_dra_driver.Synthesizer.Cel.Cache.{IsCache, match_attributes_lem}
use composite_dra_driver.Synthesizer.Recompute.{recompute}
use composite_dra_driver.Synthesizer.Recompute.Mappings.{recompute-get}
use composite_dra_driver.Tests.Samples.{built_order, config}

abbrev composite : GoString → CompositeDevice
composite name = record {
  name = name;
  attributes = (codes "root", string_attribute (codes "r1")) ∷ [];
  mapping = record {
    composition_name = codes "pair";
    members = [];
    rail_index = pos 0;
    numa_node = pos 0;
  };
}

abbrev composites : List CompositeDevice
composites = composite (codes "a") ∷ composite (codes "b") ∷ []

build_slices_lem_example :
    (concat (slice_devices (build_slices composites)) ≡ map to_device composites)
    × All IsFilled (build_slices composites)
    × (1 ≤ length (build_slices composites))
build_slices_lem_example = build_slices_lem composites

in_order : IsVisit (λ groups. groups)
in_order = record { same = λ k groups. refl; once = λ groups h. h }

driver_resources_lem_example :
    lookup
      (pool_name (codes "d") (codes "n") (codes "pair"))
      (driver_resources (λ groups. groups) (codes "d") (codes "n") composites).pools
    ≡ pool_with (devices_of (codes "pair") composites)
driver_resources_lem_example =
    driver_resources_lem (λ groups. groups) in_order (codes "d") (codes "n") (codes "pair")
      composites

-- an expression is its own program, and holds of a device that has a domain of that name
abbrev compile : GoString → Result ℕ GoString
compile expression = ok expression

abbrev eval : GoString → CelDevice → Result ℕ Value
eval prog dev = elim (lookup prog dev) [ none ↦ err 0 | some inner ↦ ok (bool_value true) ]

match_attributes_lem_example :
    ((match_attributes compile eval (codes "b") [] ((codes "b", codes "b") ∷ [])).0
      ≡ evaluate compile eval [] (compile (codes "b")))
    × IsCache compile eval
        (match_attributes compile eval (codes "b") [] ((codes "b", codes "b") ∷ [])).1
match_attributes_lem_example =
    match_attributes_lem compile eval (codes "b") [] ((codes "b", codes "b") ∷ []) (refl, tt)

abbrev watcher : Watcher
watcher = record { node_name = codes "node"; source_drivers = codes "g.io" ∷ codes "n.io" ∷ [] }

abbrev slice : GoString → GoString → ResourceSlice
slice driver name = record {
  driver = driver;
  node_name = some (codes "node");
  pool = codes "pool";
  devices =
      record { name = name; attributes = (codes "root", string_attribute (codes "r1")) ∷ [] } ∷ [];
}

abbrev listed : Result ℕ (List ResourceSlice)
listed = ok (slice (codes "g.io") (codes "g1") ∷ slice (codes "n.io") (codes "n1") ∷ [])

get_source_devices_lem_example :
    lookup_or []
      (codes "gpu")
      (get_source_devices {E = ℕ} watcher listed ((codes "gpu", codes "g.io") ∷ []))
    ≡ record {
      source_name = codes "gpu";
      driver = codes "g.io";
      pool = (slice (codes "g.io") (codes "g1")).pool;
      device_name = codes "g1";
      device_class_name = [];
      attributes = (codes "root", string_attribute (codes "r1")) ∷ [];
    }
      ∷ []
unfolding of_slices source_of is_of_source slice_source_devices str_eq codes
get_source_devices_lem_example =
    get_source_devices_lem ℕ watcher
      (slice (codes "g.io") (codes "g1") ∷ slice (codes "n.io") (codes "n1") ∷ [])
      ((codes "gpu", codes "g.io") ∷ []) (codes "gpu")

abbrev run : Run (DeviceStore × List CompositeDevice)
run =
    recompute built_order config (codes "node")
      (new_pairer config.sources config.compositions none []) watcher listed new_device_store

-- what a recomputation that returns leaves and publishes
abbrev outcome : Run (DeviceStore × List CompositeDevice) → DeviceStore × List CompositeDevice
outcome (returns r) = r
outcome panics = (new_device_store, [])

-- the device of a list with one
abbrev the : List CompositeDevice → CompositeDevice
the [] = composite []
the (cd ∷ cds) = cd

abbrev first : CompositeDevice
first = the (outcome run).1

recompute-get_example :
    get
      (pool_name config.driver.name (codes "node") first.mapping.composition_name)
      first.name
      (outcome run).0
    ≡ some first.mapping
unfolding recompute get_source_devices is_on_node compute_pairs new_pairer compute_for_composition
    replace_all key pool_name pair_with_match_attribute generate_combinations select extend_combos
    choose_combinations build_composite_device for_each lookup insert lookup_or str_eq codes
    get_attribute_string detect_numa_node has_suffix sanitize_name truncate qualified_attr_name
    str_lt decimal singletons
recompute-get_example =
    recompute-get built_order config (codes "node")
      (new_pairer config.sources config.compositions none []) watcher listed new_device_store
      (outcome run).0 [] [] first refl tt
