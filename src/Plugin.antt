-- ===== src/Plugin.antt =====
-- pkg/plugin: the state of the driver's plugin and the calls that it makes. Each request is one
-- step; what the API server and the drivers answer is a parameter of the step.
pub mod Prepare
pub mod Unprepare
pub mod State
pub mod Orphans
pub mod Lifecycle
pub mod Client
use composite_dra_driver.Prelude.{List, Option, GoString, GoMap}
use composite_dra_driver.Store.Devices.{DeviceStore}
use composite_dra_driver.Store.State.{Bucket}

-- `shadow.ShadowClaimInfo`
pub record ShadowClaimInfo : Type 0 where
  pub namespace : GoString
  pub name : GoString
  pub uid : GoString

pub record ShadowRecord : Type 0 where
  pub driver_name : GoString
  pub composition : GoString
  pub info : ShadowClaimInfo

-- `resourceapi.DeviceRequestAllocationResult`
pub record AllocationResult : Type 0 where
  pub request : GoString
  pub driver : GoString
  pub pool : GoString
  pub device : GoString

-- `resourceapi.ResourceClaim`, as far as the plugin reads it
pub record ResourceClaim : Type 0 where
  pub namespace : GoString
  pub name : GoString
  pub uid : GoString
  pub allocation : Option (List AllocationResult)

-- `kubeletplugin.Device`
pub record PreparedDevice : Type 0 where
  pub requests : List GoString
  pub pool_name : GoString
  pub device_name : GoString
  pub cdi_device_ids : List GoString

-- `state` is the bucket of the state store, `none` where the driver runs without one.
pub record CompositePlugin : Type 0 where
  pub driver_name : GoString
  pub device_store : DeviceStore
  pub shadow_claims : GoMap (List ShadowRecord)
  pub state : Option Bucket

-- the calls that undo a shadow claim
pub data Call : Type 0 where
  unprepare_via_grpc : GoString → ShadowClaimInfo → Call
  delete_claim : GoString → GoString → Call
  delete_for_composite : GoString → GoString → Call
