-- ===== src/Synthesizer/Watcher/Relevant.antt =====
-- Only the slices that the event handler lets through matter.
use composite_dra_driver.Prelude.{
  ◌≡◌, refl, ◌∙◌, true, false, List, [], ◌∷◌, none, GoString, GoMap, lookup, insert, lookup-insert,
  has, str_eq, str_eq_iff, All, Bool-cases, inl, inr, if◌then◌else◌,
}
use composite_dra_driver.Prelude.Result.{ok}
use composite_dra_driver.Synthesizer.Devices.{DeviceMap}
use composite_dra_driver.Synthesizer.Watcher.{
  ResourceSlice, Watcher, is_on_node, is_relevant_slice, driver_to_source, add_slices,
  get_source_devices,
}

-- the slices that are relevant
pub relevant : Watcher → List ResourceSlice → List ResourceSlice
relevant w [] = []
relevant w (s ∷ ss) = let rest = relevant w ss in if is_relevant_slice w s then s ∷ rest else rest

-- every driver of a source is watched
abbrev pub IsWatched : Watcher → GoMap GoString → Type 0
IsWatched w sources = All (λ (x : GoString × GoString). has x.1 w.source_drivers ≡ true) sources

lookup-driver_to_source-none :
    (w : Watcher) (d : GoString) (sources m : GoMap GoString)
    → has d w.source_drivers ≡ false
    → IsWatched w sources
    → lookup d (driver_to_source sources m) ≡ lookup d m
unfolding driver_to_source
lookup-driver_to_source-none w d [] m h ws = refl
lookup-driver_to_source-none w d ((src, driver) ∷ sources) m h (p, ws) =
    lookup-driver_to_source-none w d sources (insert driver src m) h ws
    ∙ lookup-insert driver d src m
    ∙ (elim (Bool-cases (str_eq driver d)) [
      | inl e ↦
          absurd (let q : has d w.source_drivers ≡ true = rw ((str_eq_iff driver d).0 e) at p in cc)
      | inr e ↦ rw e refl
    ])

add_slices-relevant :
    (w : Watcher) (sources : GoMap GoString) (ss : List ResourceSlice) (result : DeviceMap)
    → IsWatched w sources
    → add_slices w.node_name (driver_to_source sources []) ss result
      ≡ add_slices w.node_name (driver_to_source sources []) (relevant w ss) result
unfolding add_slices relevant is_relevant_slice lookup
add_slices-relevant w sources [] result ws = refl
add_slices-relevant w sources (s ∷ ss) result ws =
    elim (Bool-cases (is_on_node w.node_name s.node_name)) [
      | inr e ↦ rw (e, relevant, add_slices) (add_slices-relevant w sources ss result ws)
      | inl e ↦ elim (Bool-cases (has s.driver w.source_drivers)) [
        | inl f ↦ rw (e, f, relevant) (rw (e, add_slices) (add_slices-relevant w sources ss _ ws))
        | inr f ↦
            let unknown : lookup s.driver (driver_to_source sources []) ≡ none =
              lookup-driver_to_source-none w s.driver sources [] f ws in
            rw (e, f, relevant)
              (rw (unknown, add_slices) (add_slices-relevant w sources ss result ws))
      ]
    ]

-- If the drivers of the sources are watched, the devices of the sources depend only on the slices that
-- `isRelevantSlice` accepts: an event about any other slice, which the handler drops, changes nothing.
pub get_source_devices-relevant :
    (E : Type 0) (w : Watcher) (sources : GoMap GoString) (ss : List ResourceSlice)
    → IsWatched w sources
    → get_source_devices {E = E} w (ok ss) sources
      ≡ get_source_devices {E = E} w (ok (relevant w ss)) sources
unfolding get_source_devices
get_source_devices-relevant E w sources ss ws = add_slices-relevant w sources ss [] ws
