-- ===== src/Synthesizer/Start.antt =====
-- pkg/synthesizer/synthesizer.go: `New`, `FetchNodeLabels`, `Start` and a run of `recompute` by the
-- synthesizer. `node` is what the API server answers for the node, here its labels; the CEL filter is
-- that of the pairer.
use composite_dra_driver.Prelude.{
  Bool, true, List, [], ◌∷◌, Option, ◌≡◌, refl, arith, GoString, GoMap, insert, has, str_eq,
  str_eq_refl, All, All-mono, All-insert, ◌||◌,
}
use composite_dra_driver.Prelude.Result.{Result, ok, err}
use composite_dra_driver.Prelude.Run.{Run, returns}
use composite_dra_driver.Synthesizer.Pairer.NoPanic.{compute_pairs-returns}
use composite_dra_driver.Resource.{Attributes}
use composite_dra_driver.Config.{SourceConfig, CompositeConfig}
use composite_dra_driver.Config.Validation.{validate}
use composite_dra_driver.Store.Devices.{DeviceStore, replace_all}
use composite_dra_driver.Synthesizer.Devices.{CompositeDevice}
use composite_dra_driver.Synthesizer.Pairer.{RangeOrders, Pairer, new_pairer}
use composite_dra_driver.Synthesizer.Watcher.{
  Watcher, ResourceSlice, new_watcher, get_source_devices,
}
use composite_dra_driver.Synthesizer.Watcher.Relevant.{
  relevant, IsWatched, get_source_devices-relevant,
}
use composite_dra_driver.Synthesizer.Recompute.{source_drivers, new_mappings, recompute}

pub record Synthesizer : Type 0 where
  pub cfg : CompositeConfig
  pub node_name : GoString
  pub watcher : Watcher
  pub pairer : Pairer
  pub store : DeviceStore

-- an error is only logged
unfoldable pub fetch_node_labels {ℓ} : {E : Type ℓ} → Result E (GoMap GoString) → GoMap GoString
fetch_node_labels (err e) = []
fetch_node_labels (ok labels) = labels

-- the loop over the sources
drivers_of : List SourceConfig → List GoString
drivers_of [] = []
drivers_of (src ∷ srcs) = src.driver ∷ drivers_of srcs

unfoldable pub new {ℓ} :
    {E : Type ℓ}
    → CompositeConfig
    → Option (GoString → Attributes → Bool)
    → GoString
    → Result E (GoMap GoString)
    → DeviceStore
    → Synthesizer
unfolding drivers_of
new cfg cel_filter node_name node device_store = record {
  cfg = cfg;
  node_name = node_name;
  watcher = new_watcher node_name (drivers_of cfg.sources);
  pairer = new_pairer cfg.sources cfg.compositions cel_filter (fetch_node_labels node);
  store = device_store;
}

-- what a run publishes, and the store afterwards
unfoldable pub synthesize {ℓ} :
    {E : Type ℓ}
    → RangeOrders
    → Result E (List ResourceSlice)
    → Synthesizer
    → Run (DeviceStore × List CompositeDevice)
synthesize visit slices s = recompute visit s.cfg s.node_name s.pairer s.watcher slices s.store

has-later :
    (d : GoString) (srcs : List SourceConfig) (src : SourceConfig)
    → has d (drivers_of srcs) ≡ true
    → has d (drivers_of (src ∷ srcs)) ≡ true
unfolding drivers_of has
has-later d srcs src h = ground arith

source_drivers-IsWatched :
    (w : Watcher) (srcs : List SourceConfig) (m : GoMap GoString)
    → All (λ (s : SourceConfig). has s.driver w.source_drivers ≡ true) srcs
    → IsWatched w m
    → IsWatched w (source_drivers srcs m)
unfolding source_drivers
source_drivers-IsWatched w [] m h i = i
source_drivers-IsWatched w (src ∷ srcs) m (p, h) i =
    source_drivers-IsWatched w srcs (insert src.name src.driver m) h (
      All-insert (λ (x : GoString × GoString). has x.1 w.source_drivers ≡ true) src.name src.driver
        m p i)

drivers_of-has :
    (srcs : List SourceConfig)
    → All (λ (s : SourceConfig). has s.driver (drivers_of srcs) ≡ true) srcs
unfolding drivers_of has
drivers_of-has [] = tt
drivers_of-has (src ∷ srcs) = (
  (let here : (str_eq src.driver src.driver || has src.driver (drivers_of srcs)) ≡ true =
        rw (str_eq_refl src.driver) refl in
      here),
  All-mono srcs (λ s h. has-later s.driver srcs src h) (drivers_of-has srcs),
)

-- a recomputation sees the slices through the devices of the sources
recompute-devices :
    (E : Type 0) (visit : RangeOrders) (cfg : CompositeConfig) (node : GoString) (p : Pairer)
    (w : Watcher) (a b : Result E (List ResourceSlice)) (s : DeviceStore)
    → get_source_devices w a (source_drivers cfg.sources [])
      ≡ get_source_devices w b (source_drivers cfg.sources [])
    → recompute visit cfg node p w a s ≡ recompute visit cfg node p w b s
unfolding recompute
recompute-devices E visit cfg node p w a b s e = rw (e, recompute) refl

-- What the synthesizer computes and publishes depends only on the slices that the event handler lets
-- through: an event that it drops would not change the devices.
pub synthesize-relevant :
    (E : Type 0) (cfg : CompositeConfig) (cel_filter : Option (GoString → Attributes → Bool))
    (node_name : GoString) (node : Result E (GoMap GoString)) (device_store : DeviceStore)
    (visit : RangeOrders) (ss : List ResourceSlice)
    → (let s = new cfg cel_filter node_name node device_store in
        synthesize {E = E} visit (ok ss) s
        ≡ synthesize {E = E} visit (ok (relevant s.watcher ss)) s)
unfolding synthesize recompute new new_watcher
synthesize-relevant E cfg cel_filter node_name node device_store visit ss =
    let w = new_watcher node_name (drivers_of cfg.sources) in
    let p = new_pairer cfg.sources cfg.compositions cel_filter (fetch_node_labels node) in
    recompute-devices E visit cfg node_name p w (ok ss) (ok (relevant w ss)) device_store (
      get_source_devices-relevant E w (source_drivers cfg.sources []) ss
        (source_drivers-IsWatched w cfg.sources [] (drivers_of-has cfg.sources) tt))

-- With a configuration without validation errors, a recomputation returns.
pub synthesize-returns :
    {E : Type 0} (cfg : CompositeConfig) (cel_filter : Option (GoString → Attributes → Bool))
    (node_name : GoString) (node : Result E (GoMap GoString)) (device_store : DeviceStore)
    (visit : RangeOrders) (slices : Result E (List ResourceSlice))
    → validate cfg ≡ ok tt
    → (r : DeviceStore × List CompositeDevice) × (synthesize visit slices
          (new cfg cel_filter node_name node device_store)
        ≡ returns r)
unfolding synthesize recompute new
synthesize-returns cfg cel_filter node_name node device_store visit slices valid =
    let w = new_watcher node_name (drivers_of cfg.sources) in
    let devices = get_source_devices w slices (source_drivers cfg.sources []) in
    let (cds, e) =
      compute_pairs-returns cfg cel_filter (fetch_node_labels node) visit devices valid in
    (
      (replace_all (new_mappings cfg.driver.name node_name cds []) device_store, cds),
      rw (e, recompute) refl,
    )
