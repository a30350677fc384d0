-- ===== src/Tests/Samples.antt =====
-- A configuration with GPUs and NICs, and devices for it.
use composite_dra_driver.Prelude.{[], ◌∷◌, none, pos, GoString, codes}
use composite_dra_driver.Config.{
  CompositeConfig, SourceConfig, CompositionConfig, MemberConfig, ConstraintConfig,
}
use composite_dra_driver.Resource.{string_attribute}
use composite_dra_driver.Synthesizer.Devices.{SourceDevice, DeviceMap}
use composite_dra_driver.Synthesizer.Pairer.{RangeOrders}

abbrev pub source : GoString → GoString → SourceConfig
source name driver = record {
  name = name;
  driver = driver;
  device_class_name = name;
  forward_attributes = record { domain = []; attributes = codes "root" ∷ [] } ∷ [];
  socket_path = [];
}

abbrev pub member : GoString → MemberConfig
member name = record { source = name; count = pos 1 }

abbrev pub root : ConstraintConfig
root = record { kind = codes "matchAttribute"; attribute = codes "root" }

abbrev pub pair : CompositionConfig
pair = record {
  name = codes "pair";
  members = member (codes "gpu") ∷ member (codes "nic") ∷ [];
  constraints = root ∷ [];
  filters = [];
  pairing_mode = [];
  transport_mode = [];
  device_class_name = [];
  extended_resource_name = [];
  node_pool_label_key = [];
  node_pools = [];
}

abbrev pub config : CompositeConfig
config = record {
  driver = record { name = codes "composite" };
  sources = source (codes "gpu") (codes "g.io") ∷ source (codes "nic") (codes "n.io") ∷ [];
  compositions = pair ∷ [];
  device_params = none;
  explicit_pairings = none;
}

abbrev pub device : GoString → GoString → GoString → SourceDevice
device source_name device_name value = record {
  source_name = source_name;
  driver = source_name;
  pool = codes "pool";
  device_name = device_name;
  device_class_name = [];
  attributes = (codes "root", string_attribute value) ∷ [];
}

abbrev pub devices : DeviceMap
devices =
    (
      codes "gpu",
      device (codes "gpu") (codes "g0") (codes "r0")
          ∷ device (codes "gpu") (codes "g1") (codes "r1")
          ∷ [],
    )
    ∷ (codes "nic", device (codes "nic") (codes "n1") (codes "r1") ∷ [])
    ∷ []

-- maps are visited in the order in which they were built
abbrev pub built_order : RangeOrders
built_order = record { groups = λ groups. groups; combo = λ combo. combo }
