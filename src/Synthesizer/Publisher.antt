-- ===== src/Synthesizer/Publisher.antt =====
-- pkg/synthesizer/publisher.go. `visit` is the order in which `range groups` visits the map. What
-- becomes of the resources is up to `publishFn`, a parameter of `publish`.
pub mod Slices
pub mod Pools
use composite_dra_driver.Prelude.{
  ℕ, zero, suc, ◌+◌, ◌-◌, ltb, List, [], ◌∷◌, ◌++◌, map, Bool, ℤ, pos, GoString, codes, str_eq,
  GoMap, lookup_or, insert, length, take, drop, if◌then◌else◌,
}
use composite_dra_driver.Resource.{Attributes}
use composite_dra_driver.Store.{DeviceMapping}
use composite_dra_driver.Synthesizer.Devices.{CompositeDevice}

-- `resourceapi.Device` and `resourceslice.Slice`, `Pool` and `DriverResources`
pub record Device : Type 0 where
  pub name : GoString
  pub attributes : Attributes

pub record Slice : Type 0 where
  pub devices : List Device

pub record Pool : Type 0 where
  pub slices : List Slice

pub record DriverResources : Type 0 where
  pub pools : GoMap Pool

abbrev pub max_devices_per_slice : ℕ
max_devices_per_slice = 128

unfoldable pub pool_name : GoString → GoString → GoString → GoString
pool_name driver_name node_name composition_name =
    driver_name ++ (codes "-" ++ (node_name ++ (codes "-" ++ composition_name)))

abbrev pub CompositeGroups : Type 0
CompositeGroups = GoMap (List CompositeDevice)

group_into : CompositeGroups → List CompositeDevice → CompositeGroups
group_into groups [] = groups
group_into groups (d ∷ ds) =
    let name = d.mapping.composition_name in
    group_into (insert name (lookup_or [] name groups ++ d ∷ []) groups) ds

unfoldable pub group_by_composition : List CompositeDevice → CompositeGroups
unfolding group_into
group_by_composition devices = group_into [] devices

unfoldable pub convert_attributes : Attributes → Attributes
convert_attributes [] = []
convert_attributes ((key, val) ∷ attrs) = (key, val) ∷ convert_attributes attrs

pub to_device : CompositeDevice → Device
to_device cd = record { name = cd.name; attributes = convert_attributes cd.attributes }

-- the loop on `i`, whose fuel bounds its rounds: the batches of devices
pub batches : ℕ → ℕ → List CompositeDevice → List (List CompositeDevice)
batches zero i devices = []
batches (suc fuel) i devices =
    let past = i + max_devices_per_slice in
    let last = if ltb (length devices) past then length devices else past in
    let rest = batches fuel past devices in
    if ltb i (length devices) then take (last - i) (drop i devices) ∷ rest else []

pub to_slice : List CompositeDevice → Slice
unfolding to_device
to_slice batch = record { devices = map to_device batch }

-- `if len(slices) == 0 { slices = []resourceslice.Slice{{}} }`
or_empty_slice : List Slice → List Slice
or_empty_slice [] = record { devices = [] } ∷ []
or_empty_slice (s ∷ ss) = s ∷ ss

unfoldable pub build_slices : List CompositeDevice → List Slice
unfolding batches to_slice or_empty_slice
build_slices devices = or_empty_slice (map to_slice (batches (length devices) 0 devices))

module _ (driver_name node_name : GoString) where
  -- the loop over the groups
  add_pools : CompositeGroups → GoMap Pool → GoMap Pool
  add_pools [] pools = pools
  add_pools ((comp_name, devices) ∷ groups) pools = add_pools groups (
      insert (pool_name driver_name node_name comp_name) (record { slices = build_slices devices })
        pools)

  -- one empty pool where there is none
  or_empty_pool : GoMap Pool → GoMap Pool
  or_empty_pool [] =
      insert (driver_name ++ (codes "-" ++ node_name))
        (record { slices = record { devices = [] } ∷ [] }) []
  or_empty_pool (p ∷ ps) = p ∷ ps

unfoldable pub driver_resources :
    (CompositeGroups → CompositeGroups)
    → GoString
    → GoString
    → List CompositeDevice
    → DriverResources
unfolding add_pools or_empty_pool
driver_resources visit driver_name node_name composite_devices = record {
  pools =
      or_empty_pool driver_name node_name
        (add_pools driver_name node_name (visit (group_by_composition composite_devices)) []);
}

pub publish {ℓ} :
    {E : Type ℓ}
    → (DriverResources → E)
    → (CompositeGroups → CompositeGroups)
    → GoString
    → GoString
    → List CompositeDevice
    → E
unfolding driver_resources
publish publish_fn visit driver_name node_name composite_devices =
    publish_fn (driver_resources visit driver_name node_name composite_devices)

-- `resourceapi.ResourceSliceSpec`, with its `Pool`
pub record ResourceSliceSpec : Type 0 where
  pub driver : GoString
  pub node_name : GoString
  pub pool : GoString
  pub resource_slice_count : ℤ
  pub devices : List Device

module _ (driver_name node_name : GoString) where
  to_spec : GoString → ℤ → List CompositeDevice → ResourceSliceSpec
  unfolding to_device
  to_spec comp_name count batch = record {
    driver = driver_name;
    node_name = node_name;
    pool = pool_name driver_name node_name comp_name;
    resource_slice_count = count;
    devices = map to_device batch;
  }

  pub pool_specs : GoString → List CompositeDevice → List ResourceSliceSpec
  unfolding batches to_spec
  pool_specs comp_name devices =
      let all = batches (length devices) 0 devices in map (to_spec comp_name (pos (length all))) all

  all_specs : CompositeGroups → List ResourceSliceSpec
  unfolding pool_specs
  all_specs [] = []
  all_specs ((comp_name, devices) ∷ groups) = pool_specs comp_name devices ++ all_specs groups

unfoldable pub build_resource_slices :
    (CompositeGroups → CompositeGroups)
    → GoString
    → GoString
    → List CompositeDevice
    → List ResourceSliceSpec
unfolding all_specs
build_resource_slices visit driver_name node_name [] = []
build_resource_slices visit driver_name node_name (d ∷ ds) =
    all_specs driver_name node_name (visit (group_by_composition (d ∷ ds)))
