-- ===== src/Plugin/Lifecycle.antt =====
-- pkg/plugin/plugin.go: `NewCompositePlugin`, and the plugin as a state machine. Its events are the
-- requests of the kubelet, one claim after the other, the synthesizer's writes to the device store
-- and a restart of the driver, which keeps the state store's bucket and loses all else. The steps are
-- those in which the state store's transactions do not fail, and in which the texts of a record are
-- ASCII, as the names and UIDs of Kubernetes are; encoding/json would replace invalid UTF-8.
pub mod Persisted
use composite_dra_driver.Prelude.{
  ◌≡◌, Bool, true, ◌&&◌, ltb, List, [], ◌∷◌, Option, none, some, GoString, lookup,
}
use composite_dra_driver.Prelude.Result.{Result}
use composite_dra_driver.Store.Devices.{DeviceStore, new_device_store}
use composite_dra_driver.Store.State.{ShadowEntry, StoredShadows, Bucket}
use composite_dra_driver.Plugin.{ResourceClaim, CompositePlugin, Call}
use composite_dra_driver.Plugin.State.{stored, restore_from_state}
use composite_dra_driver.Plugin.Prepare.{Resolve, Answers, prepare_claim}
use composite_dra_driver.Plugin.Unprepare.{NamespacedObject, unprepare_claim}

unfoldable pub is_ascii : GoString → Bool
is_ascii [] = true
is_ascii (c ∷ s) = ltb c 128 && is_ascii s

unfoldable pub are_ascii : List ShadowEntry → Bool
unfolding is_ascii
are_ascii [] = true
are_ascii (e ∷ es) =
    is_ascii e.driver_name
    && (is_ascii e.namespace
        && (is_ascii e.name && (is_ascii e.uid && (is_ascii e.composition && are_ascii es))))

unfoldable pub is_ascii_record : StoredShadows → Bool
unfolding is_ascii are_ascii
is_ascii_record rec =
    is_ascii rec.composite_claim_uid && (is_ascii rec.namespace && are_ascii rec.shadows)

module _ {E : Type 0} (marshal : StoredShadows → Result E GoString)
    (unmarshal : GoString → Result E StoredShadows) where
  -- `fault` is the error of the transaction of `ListAll`
  unfoldable pub new_composite_plugin :
      Option E → GoString → DeviceStore → Option Bucket → CompositePlugin
  unfolding restore_from_state
  new_composite_plugin fault driver_name device_store none = record {
    driver_name = driver_name;
    device_store = device_store;
    shadow_claims = [];
    state = none;
  }
  new_composite_plugin fault driver_name device_store (some b) = record {
    driver_name = driver_name;
    device_store = device_store;
    shadow_claims = restore_from_state marshal unmarshal fault b [];
    state = some b;
  }

  -- the driver's process ends and a new one starts
  abbrev pub restart : CompositePlugin → CompositePlugin
  restart p = new_composite_plugin none p.driver_name new_device_store p.state

module _ {E : Type 0} (marshal : StoredShadows → Result E GoString)
    (unmarshal : GoString → Result E StoredShadows) (resolve : Resolve) where
  -- the plugin's record of the claim, if there is one, has only ASCII texts
  unfoldable pub RecordsAscii : ResourceClaim → CompositePlugin → Type 0
  RecordsAscii claim p = elim (lookup claim.uid p.shadow_claims) [
    | none ↦ Unit
    | some shadows ↦ is_ascii_record (stored claim shadows) ≡ true
  ]

  pub data Step (p : CompositePlugin) : CompositePlugin → Type 0 where
    prepare :
        (claim : ResourceClaim) (a : Answers E)
        → a.fault ≡ none
        → RecordsAscii claim
            (prepare_claim marshal unmarshal resolve a.created a.fetched a.prepared a.fault claim
              p).plugin
        → Step p
            (prepare_claim marshal unmarshal resolve a.created a.fetched a.prepared a.fault claim
              p).plugin
    unprepare :
        (answer : Call → Option E) (claim : NamespacedObject)
        → Step p (unprepare_claim answer none claim p).1
    synthesize : (devices : DeviceStore) → Step p (record p { device_store = devices })
    restarts : Step p (restart marshal unmarshal p)

  -- from the first start of a driver, whose state store is new
  pub data Reach (driver_name : GoString) : CompositePlugin → Type 0 where
    start :
        Reach driver_name
          (new_composite_plugin marshal unmarshal none driver_name new_device_store (some []))
    next : {p q : CompositePlugin} → Reach driver_name p → Step p q → Reach driver_name q
