-- ===== src/Synthesizer/Watcher/Sources.antt =====
-- The devices of a source are those of the slices of its driver on the node.
use composite_dra_driver.Prelude.{
  ◌≡◌, refl, sym, ap, Bool, false, ◌&&◌, Option-cases, lookup-insert, ◌∙◌, List, [], ◌∷◌, ◌++◌, map,
  append_assoc, append-nil, Option, none, some, GoString, GoMap, str_eq, str_eq_iff, lookup,
  lookup_or, lookup_or-insert, insert, Bool-cases, inl, inr, if◌then◌else◌,
}
use composite_dra_driver.Prelude.Result.{ok}
use composite_dra_driver.Synthesizer.Devices.{SourceDevice, DeviceMap}
use composite_dra_driver.Synthesizer.Publisher.{Device}
use composite_dra_driver.Synthesizer.Watcher.{
  ResourceSlice, Watcher, is_on_node, driver_to_source, source_device, add_source_devices,
  add_slices, get_source_devices,
}

lookup_or-add_source_devices :
    (s src : GoString) (slice : ResourceSlice) (devs : List Device) (result : DeviceMap)
    → lookup_or [] s (add_source_devices src slice devs result)
      ≡ lookup_or [] s result ++ (if str_eq src s then map (source_device src slice) devs else [])
unfolding add_source_devices
lookup_or-add_source_devices s src slice [] result = elim (Bool-cases (str_eq src s)) [
  | inl same ↦ rw same (sym (append-nil _))
  | inr other ↦ rw other (sym (append-nil _))
]
lookup_or-add_source_devices s src slice (dev ∷ devs) result =
    let new = lookup_or [] src result ++ source_device src slice dev ∷ [] in
    let ih = lookup_or-add_source_devices s src slice devs (insert src new result) in
    let now = lookup_or-insert [] src s new result in
    elim (Bool-cases (str_eq src s)) [
      | inl same ↦
          let here : lookup_or [] src result ≡ lookup_or [] s result =
            ap (λ j. lookup_or [] j result) ((str_eq_iff src s).0 same) in
          rw (ih, now, same, here)
            (append_assoc (lookup_or [] s result) (source_device src slice dev ∷ [])
              (map (source_device src slice) devs))
      | inr other ↦ rw (ih, now, other) refl
    ]

-- the source of a driver, which is the last one of the sources that name it
unfoldable pub source_of : GoString → GoMap GoString → Option GoString
source_of driver [] = none
source_of driver ((src_name, driver_name) ∷ sources) = elim (source_of driver sources) [
  | some later ↦ some later
  | none ↦ if str_eq driver_name driver then some src_name else none
]

lookup-driver_to_source :
    (driver : GoString) (sources m : GoMap GoString)
    → lookup driver (driver_to_source sources m)
      ≡ (elim (source_of driver sources) [ some src ↦ some src | none ↦ lookup driver m ])
unfolding driver_to_source source_of
lookup-driver_to_source driver [] m = refl
lookup-driver_to_source driver ((src_name, driver_name) ∷ sources) m =
    lookup-driver_to_source driver sources (insert driver_name src_name m)
    ∙ elim (Option-cases (source_of driver sources)) [
      | inl e ↦ elim (Bool-cases (str_eq driver_name driver)) [
        | inl same ↦
            rw (e, source_of, same) (lookup-insert driver_name driver src_name m ∙ rw same refl)
        | inr other ↦
            rw (e, source_of, other) (lookup-insert driver_name driver src_name m ∙ rw other refl)
      ]
      | inr (src, e) ↦ rw (e, source_of) refl
    ]

-- the devices of the source `s` in the slices of the node, each slice of the source's driver
module _ (node : GoString) (sources : GoMap GoString) (s : GoString) where
  unfoldable pub slice_source_devices : ResourceSlice → List SourceDevice
  slice_source_devices slice =
      map
        (λ (dev : Device). record {
          source_name = s;
          driver = slice.driver;
          pool = slice.pool;
          device_name = dev.name;
          device_class_name = [];
          attributes = dev.attributes;
        })
        slice.devices

  unfoldable pub is_of_source : ResourceSlice → Bool
  is_of_source slice = elim slice.node_name [
    | none ↦ false
    | some name ↦ elim (source_of slice.driver sources) [
      | none ↦ false
      | some src ↦ str_eq name node && str_eq src s
    ]
  ]

  unfoldable pub of_slices : List ResourceSlice → List SourceDevice
  unfolding slice_source_devices is_of_source
  of_slices [] = []
  of_slices (slice ∷ slices) =
      let rest = of_slices slices in
      if is_of_source slice then slice_source_devices slice ++ rest else rest

module _ (node : GoString) (to_source : GoMap GoString) (s : GoString) where
  -- the devices that a slice gives to the source
  of_source : ResourceSlice → Option GoString → List SourceDevice
  of_source slice none = []
  of_source slice (some src) =
      if str_eq src s then map (source_device src slice) slice.devices else []

  of_slice : ResourceSlice → List SourceDevice
  unfolding of_source
  of_slice slice =
      if is_on_node node slice.node_name
      then of_source slice (lookup slice.driver to_source)
      else []

  read_slices : List ResourceSlice → List SourceDevice
  unfolding of_slice
  read_slices [] = []
  read_slices (slice ∷ slices) = of_slice slice ++ read_slices slices

  one_slice :
      (slice : ResourceSlice) (result : DeviceMap) (r : Option GoString)
      → lookup_or [] s
          (elim r [ none ↦ result | some src ↦ add_source_devices src slice slice.devices result ])
        ≡ lookup_or [] s result ++ of_source slice r
  unfolding of_source
  one_slice slice result none = sym (append-nil _)
  one_slice slice result (some src) = lookup_or-add_source_devices s src slice slice.devices result

  lookup_or-add_slices :
      (slices : List ResourceSlice) (result : DeviceMap)
      → lookup_or [] s (add_slices node to_source slices result)
        ≡ lookup_or [] s result ++ read_slices slices
  unfolding add_slices read_slices of_slice
  lookup_or-add_slices [] result = sym (append-nil _)
  lookup_or-add_slices (slice ∷ slices) result =
      elim (Bool-cases (is_on_node node slice.node_name)) [
        | inl on ↦
            let r = lookup slice.driver to_source in
            rw (on, add_slices)
              (lookup_or-add_slices slices _
                ∙ ap (λ xs. xs ++ read_slices slices) (one_slice slice result r)
                ∙ append_assoc (lookup_or [] s result) (of_source slice r) (read_slices slices))
        | inr off ↦ rw (off, add_slices) (lookup_or-add_slices slices result)
      ]

module _ (node : GoString) (sources : GoMap GoString) (s : GoString) where
  same_devices :
      (slice : ResourceSlice)
      → map (source_device s slice) slice.devices ≡ slice_source_devices node sources s slice
  unfolding slice_source_devices source_device
  same_devices slice = refl

  read_one :
      (slice : ResourceSlice) (name src : Option GoString)
      → (if is_on_node node name
          then of_source node
              (driver_to_source sources [])
              s
              slice
              (elim src [ some x ↦ some x | none ↦ none ])
          else [])
        ≡ (if (elim name [
          | none ↦ false
          | some n ↦ elim src [ none ↦ false | some x ↦ str_eq n node && str_eq x s ]
        ])
            then slice_source_devices node sources s slice
            else [])
  unfolding is_on_node of_source
  read_one slice none src = refl
  read_one slice (some n) none = elim (Bool-cases (str_eq n node)) [
    | inl e ↦ rw e refl
    | inr e ↦ rw e refl
  ]
  read_one slice (some n) (some x) = elim (Bool-cases (str_eq n node)) [
    | inl e ↦ elim (Bool-cases (str_eq x s)) [
      | inl f ↦
          let same : x ≡ s = (str_eq_iff x s).0 f in
          rw (e, f) (ap (λ y. map (source_device y slice) slice.devices) same ∙ same_devices slice)
      | inr f ↦ rw (e, f) refl
    ]
    | inr e ↦ rw e refl
  ]

  of_slice-of_source :
      (slice : ResourceSlice)
      → of_slice node (driver_to_source sources []) s slice ≡ (
          if is_of_source node sources s slice
          then slice_source_devices node sources s slice
          else [])
  unfolding of_slice is_of_source lookup
  of_slice-of_source slice =
      ap
        (λ r.
          if is_on_node node slice.node_name
          then of_source node (driver_to_source sources []) s slice r
          else [])
        (lookup-driver_to_source slice.driver sources [])
      ∙ read_one slice slice.node_name (source_of slice.driver sources)

-- what is read of the slices is what the sources have
read_slices-of_slices :
    (node : GoString) (sources : GoMap GoString) (s : GoString) (slices : List ResourceSlice)
    → read_slices node (driver_to_source sources []) s slices ≡ of_slices node sources s slices
unfolding read_slices of_slices
read_slices-of_slices node sources s [] = refl
read_slices-of_slices node sources s (slice ∷ slices) =
    elim (Bool-cases (is_of_source node sources s slice)) [
      | inl e ↦
          rw (of_slice-of_source node sources s slice, e)
            (ap (λ ds. slice_source_devices node sources s slice ++ ds)
              (read_slices-of_slices node sources s slices))
      | inr e ↦
          rw (of_slice-of_source node sources s slice, e)
            (read_slices-of_slices node sources s slices)
    ]

-- Where the slices can be listed, the devices of a source are, in their order, one for each device of
-- the slices that name the watcher's node and whose driver is the source's (of several sources of one
-- driver the last one has its devices), with the slice's driver and pool and the device's name and
-- attributes; a slice without a node name gives none.
pub get_source_devices_lem :
    (E : Type 0) (w : Watcher) (slices : List ResourceSlice) (sources : GoMap GoString)
    (s : GoString)
    → lookup_or [] s (get_source_devices {E = E} w (ok slices) sources)
      ≡ of_slices w.node_name sources s slices
unfolding get_source_devices lookup_or lookup
get_source_devices_lem E w slices sources s =
    lookup_or-add_slices w.node_name (driver_to_source sources []) s slices []
    ∙ read_slices-of_slices w.node_name sources s slices
