-- ===== src/Config.antt =====
-- pkg/config/types.go: the configuration, with the effective names of a composition.
pub mod Loader
pub mod Validation
use composite_dra_driver.Prelude.{
  ℕ, List, [], ◌∷◌, ◌++◌, Option, ℤ, GoString, codes, is_empty, GoMap, if◌then◌else◌,
}

pub record DriverConfig : Type 0 where
  pub name : GoString

pub record DeviceParamsConfig : Type 0 where
  pub config_map_path : GoString

pub record AttributeGroup : Type 0 where
  pub domain : GoString
  pub attributes : List GoString

pub record SourceConfig : Type 0 where
  pub name : GoString
  pub driver : GoString
  pub device_class_name : GoString
  pub forward_attributes : List AttributeGroup
  pub socket_path : GoString

pub record MemberConfig : Type 0 where
  pub source : GoString
  pub count : ℤ

pub record ConstraintConfig : Type 0 where
  pub kind : GoString
  pub attribute : GoString

pub record FilterConfig : Type 0 where
  pub cel : GoString

pub record ExplicitPairConfig : Type 0 where
  pub selectors : GoMap GoString
  pub rail : ℤ
  pub numa : ℤ

pub record ExplicitNodePool : Type 0 where
  pub label : GoString
  pub pairs : List ExplicitPairConfig

pub record CompositionConfig : Type 0 where
  pub name : GoString
  pub members : List MemberConfig
  pub constraints : List ConstraintConfig
  pub filters : GoMap FilterConfig
  pub pairing_mode : GoString
  pub transport_mode : GoString
  pub device_class_name : GoString
  pub extended_resource_name : GoString
  pub node_pool_label_key : GoString
  pub node_pools : List ExplicitNodePool

-- The deprecated top-level pairings: read from the file, and used by nothing.
pub record ExplicitPair : Type 0 where
  pub devices : GoMap GoString
  pub rail : ℤ
  pub numa : ℤ

pub record NodePoolConfig : Type 0 where
  pub label : GoString
  pub pairs : List ExplicitPair

pub record ExplicitPairings : Type 0 where
  pub node_pool_label_key : GoString
  pub node_pools : List NodePoolConfig

pub record CompositeConfig : Type 0 where
  pub driver : DriverConfig
  pub sources : List SourceConfig
  pub compositions : List CompositionConfig
  pub device_params : Option DeviceParamsConfig
  pub explicit_pairings : Option ExplicitPairings

unfoldable pub effective_device_class_name : CompositionConfig → GoString
effective_device_class_name c =
    if is_empty c.device_class_name then codes "composite-" ++ c.name else c.device_class_name

unfoldable pub effective_extended_resource_name : CompositionConfig → GoString → GoString
effective_extended_resource_name c driver_name =
    if is_empty c.extended_resource_name
    then driver_name ++ codes "/" ++ c.name
    else c.extended_resource_name
