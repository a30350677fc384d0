-- ===== src/Synthesizer/Watcher.antt =====
-- pkg/synthesizer/watcher.go: which slices count, and the devices of each source. The informer's
-- cache is the result of `List`, a parameter.
pub mod Sources
pub mod Debounce
pub mod Relevant
use composite_dra_driver.Prelude.{
  Bool, false, ◌++◌, List, [], ◌∷◌, Option, none, some, GoString, str_eq, GoMap, lookup, lookup_or,
  insert, has, if◌then◌else◌,
}
use composite_dra_driver.Prelude.Result.{Result, ok, err}
use composite_dra_driver.Synthesizer.Devices.{SourceDevice, DeviceMap}
use composite_dra_driver.Synthesizer.Publisher.{Device}

-- `resourceapi.ResourceSlice`
pub record ResourceSlice : Type 0 where
  pub driver : GoString
  pub node_name : Option GoString
  pub pool : GoString
  pub devices : List Device

pub record Watcher : Type 0 where
  pub node_name : GoString
  pub source_drivers : List GoString

-- `NewWatcher`; `sourceDrivers` is a map whose values are all true
unfoldable pub new_watcher : GoString → List GoString → Watcher
new_watcher node_name source_drivers = record {
  node_name = node_name;
  source_drivers = source_drivers;
}

-- a missing node name, or another node's
unfoldable pub is_on_node : GoString → Option GoString → Bool
is_on_node node none = false
is_on_node node (some name) = str_eq name node

unfoldable pub is_relevant_slice : Watcher → ResourceSlice → Bool
unfolding is_on_node
is_relevant_slice w slice =
    if is_on_node w.node_name slice.node_name then has slice.driver w.source_drivers else false

-- the loop over `sources`
pub driver_to_source : GoMap GoString → GoMap GoString → GoMap GoString
driver_to_source [] m = m
driver_to_source ((src_name, driver_name) ∷ sources) m =
    driver_to_source sources (insert driver_name src_name m)

pub source_device : GoString → ResourceSlice → Device → SourceDevice
source_device src_name slice dev = record {
  source_name = src_name;
  driver = slice.driver;
  pool = slice.pool;
  device_name = dev.name;
  device_class_name = [];
  attributes = dev.attributes;
}

-- the loop over `slice.Spec.Devices`
add_source_devices : GoString → ResourceSlice → List Device → DeviceMap → DeviceMap
unfolding source_device
add_source_devices src_name slice [] result = result
add_source_devices src_name slice (dev ∷ devs) result =
    add_source_devices src_name slice devs (
      insert src_name (lookup_or [] src_name result ++ source_device src_name slice dev ∷ [])
        result)

-- the loop over `allSlices`
pub add_slices : GoString → GoMap GoString → List ResourceSlice → DeviceMap → DeviceMap
unfolding add_source_devices is_on_node
add_slices node to_source [] result = result
add_slices node to_source (slice ∷ slices) result = add_slices node to_source slices (
    if is_on_node node slice.node_name
    then (elim (lookup slice.driver to_source) [
      | none ↦ result
      | some src_name ↦ add_source_devices src_name slice slice.devices result
    ])
    else result)

unfoldable pub get_source_devices {ℓ} :
    {E : Type ℓ} → Watcher → Result E (List ResourceSlice) → GoMap GoString → DeviceMap
unfolding add_slices driver_to_source
get_source_devices w (err e) sources = []
get_source_devices w (ok slices) sources =
    add_slices w.node_name (driver_to_source sources []) slices []
