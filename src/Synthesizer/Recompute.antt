-- ===== src/Synthesizer/Recompute.antt =====
-- pkg/synthesizer/synthesizer.go: `recompute`. Metrics and logs are left out; `Publish` is a
-- parameter, whose error is only logged.
pub mod Mappings
use composite_dra_driver.Prelude.{List, [], ◌∷◌, GoString, GoMap, insert}
use composite_dra_driver.Prelude.Run.{Run, returns, ◌>>=◌}
use composite_dra_driver.Prelude.Result.{Result}
use composite_dra_driver.Config.{SourceConfig, CompositeConfig}
use composite_dra_driver.Store.{DeviceMapping}
use composite_dra_driver.Store.Devices.{DeviceStore, key, replace_all}
use composite_dra_driver.Synthesizer.Devices.{CompositeDevice}
use composite_dra_driver.Synthesizer.Pairer.{RangeOrders, Pairer, compute_pairs}
use composite_dra_driver.Synthesizer.Publisher.{pool_name}
use composite_dra_driver.Synthesizer.Watcher.{Watcher, ResourceSlice, get_source_devices}

unfoldable pub source_drivers : List SourceConfig → GoMap GoString → GoMap GoString
source_drivers [] m = m
source_drivers (src ∷ srcs) m = source_drivers srcs (insert src.name src.driver m)

-- the loop over `compositeDevices`
pub new_mappings :
    GoString → GoString → List CompositeDevice → GoMap DeviceMapping → GoMap DeviceMapping
new_mappings driver node [] m = m
new_mappings driver node (cd ∷ cds) m =
    new_mappings driver node cds
      (insert (key (pool_name driver node cd.mapping.composition_name) cd.name) cd.mapping m)

-- The new store, and what is handed to `Publish`.
unfoldable pub recompute {ℓ} :
    {E : Type ℓ}
    → RangeOrders
    → CompositeConfig
    → GoString
    → Pairer
    → Watcher
    → Result E (List ResourceSlice)
    → DeviceStore
    → Run (DeviceStore × List CompositeDevice)
unfolding source_drivers new_mappings
recompute visit cfg node p w slices s = do
  cds ← compute_pairs visit p (get_source_devices w slices (source_drivers cfg.sources []))
  returns (replace_all (new_mappings cfg.driver.name node cds []) s, cds)
