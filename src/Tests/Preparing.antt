-- ===== src/Tests/Preparing.antt =====
-- A claim that is prepared: the devices that the kubelet gets.
use composite_dra_driver.Prelude.{
  ℕ, ◌≡◌, refl, List, [], ◌∷◌, none, GoString, codes, lookup, insert, str_eq,
}
use composite_dra_driver.Prelude.Result.{Result, ok}
use composite_dra_driver.Store.Devices.{get, put, key}
use composite_dra_driver.Plugin.{ShadowRecord, PreparedDevice}
use composite_dra_driver.Plugin.Prepare.{
  Collected, collect, allocated, shadows_of, first_error, grpc_phase, prepare_claim,
}
use composite_dra_driver.Plugin.Prepare.Assemble.{MemberWork, assemble, all_devices}
use composite_dra_driver.Plugin.Prepare.Devices.{IsPreparedFor, prepare_claim-devices}
use composite_dra_driver.Tests.Shadows.{claim, plugin, created, fetched, marshal, unmarshal}

-- the driver answers with two devices
abbrev prepared : MemberWork → ShadowRecord → Result ℕ (List (List GoString))
prepared w sr = ok ((codes "a" ∷ codes "b" ∷ []) ∷ (codes "c" ∷ []) ∷ [])

abbrev devices : List PreparedDevice
devices =
    record {
      requests = codes "pair-0" ∷ [];
      pool_name = codes "p";
      device_name = codes "d";
      cdi_device_ids = codes "a" ∷ codes "b" ∷ codes "c" ∷ [];
    }
    ∷ []

succeeds :
    (prepare_claim marshal unmarshal none created fetched prepared none claim plugin).result
    ≡ ok devices
unfolding prepare_claim allocated collect get put key lookup insert str_eq codes shadows_of
    first_error grpc_phase assemble all_devices
succeeds = refl

prepare_claim-devices_example :
    (c : Collected) × (allocated marshal unmarshal none created fetched prepared none claim plugin
        claim.allocation
      ≡ ok c)
    × IsPreparedFor marshal unmarshal none created fetched prepared none claim plugin c devices
prepare_claim-devices_example =
    prepare_claim-devices marshal unmarshal none created fetched prepared none claim plugin devices
      succeeds
