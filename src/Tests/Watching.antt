-- ===== src/Tests/Watching.antt =====
-- The watcher's timer and the synthesizer at concrete inputs.
use composite_dra_driver.Prelude.{
  ℕ, ◌+◌, ◌≡◌, refl, [], ◌∷◌, ◌++◌, none, some, codes, leb, str_eq, has, GoString, if◌then◌else◌,
}
use composite_dra_driver.Prelude.Result.{ok}
use composite_dra_driver.Synthesizer.Watcher.{
  Watcher, ResourceSlice, is_relevant_slice, new_watcher, is_on_node,
}
use composite_dra_driver.Synthesizer.Watcher.Debounce.{
  Object, slice_object, deleted_final_state_unknown, Event, informed, elapsed, Watch, slice_of,
  is_relevant, run, duration, debounce_interval, run-changes,
}
use composite_dra_driver.Synthesizer.Watcher.Relevant.{relevant}
use composite_dra_driver.Synthesizer.Start.{new, synthesize, synthesize-relevant}
use composite_dra_driver.Store.Devices.{new_device_store}
use composite_dra_driver.Tests.Samples.{built_order, config}

abbrev watcher : Watcher
watcher = new_watcher (codes "node") (codes "g.io" ∷ [])

abbrev slice : GoString → ResourceSlice
slice driver = record {
  driver = driver;
  node_name = some (codes "node");
  pool = codes "pool";
  devices = [];
}

abbrev idle : Watch
idle = record { debounce_timer = none; now = 0; changes = 0 }

-- a slice of the driver is deleted, and one of another driver changes
abbrev deleted : Object
deleted = deleted_final_state_unknown (slice_object (slice (codes "g.io")))

abbrev other : Event
other = informed (slice_object (slice (codes "x.io")))

run-changes_example :
    (run watcher ((informed deleted ∷ []) ++ informed deleted ∷ elapsed ∷ other ∷ []) idle).changes
    ≡ (run watcher (informed deleted ∷ []) idle).changes
      + (if leb debounce_interval (duration (elapsed ∷ other ∷ [])) then 1 else 0)
unfolding is_relevant slice_of is_relevant_slice is_on_node new_watcher str_eq has codes
run-changes_example =
    run-changes watcher (informed deleted ∷ []) (elapsed ∷ other ∷ []) deleted idle refl
      (tt, (refl, tt))

synthesize-relevant_example :
    (let s = new {E = ℕ} config none (codes "node") (ok []) new_device_store in
      let slices = slice (codes "g.io") ∷ slice (codes "x.io") ∷ [] in
      synthesize {E = ℕ} built_order (ok slices) s
      ≡ synthesize {E = ℕ} built_order (ok (relevant s.watcher slices)) s)
synthesize-relevant_example =
    synthesize-relevant ℕ config none (codes "node") (ok []) new_device_store built_order
      (slice (codes "g.io") ∷ slice (codes "x.io") ∷ [])
