-- ===== src/Store.antt =====
-- pkg/store: what a composite device stands for.
pub mod Devices
pub mod State
use composite_dra_driver.Prelude.{ℤ, List, GoString}
use composite_dra_driver.Resource.{Attributes}

pub record DeviceMember : Type 0 where
  pub source_name : GoString
  pub driver : GoString
  pub pool : GoString
  pub device : GoString
  pub device_class_name : GoString
  pub attributes : Attributes

pub record DeviceMapping : Type 0 where
  pub composition_name : GoString
  pub members : List DeviceMember
  pub rail_index : ℤ
  pub numa_node : ℤ
