-- ===== src/Synthesizer/Publisher/Pools.antt =====
-- Every composition with devices has its own pool, with the slices of exactly its devices.
use composite_dra_driver.Prelude.{
  insert-AllDistinct, length, length-append, lookup_or-eq, lookup_or-none, List, [], ◌∷◌, ◌++◌, ◌≡◌,
  ◌≢◌, refl, ap, sym, ◌∙◌, arith, Option, none, some, GoString, codes, str_eq, str_eq_iff, GoMap,
  lookup, lookup_or, insert, keys, lookup-insert, lookup_or-insert, append_assoc, append-nil,
  if◌then◌else◌, Bool-cases, Option-cases, inl, inr, All, AllDistinct, cons-ne-nil,
}
use composite_dra_driver.Synthesizer.Devices.{CompositeDevice}
use composite_dra_driver.Synthesizer.Publisher.{
  Pool, CompositeGroups, pool_name, group_into, group_by_composition, build_slices, add_pools,
  or_empty_pool, driver_resources,
}

-- the devices of one composition, in their order
pub devices_of : GoString → List CompositeDevice → List CompositeDevice
devices_of name [] = []
devices_of name (d ∷ ds) =
    let rest = devices_of name ds in
    if str_eq d.mapping.composition_name name then d ∷ rest else rest

lookup_or-group_into :
    (name : GoString) (groups : CompositeGroups) (ds : List CompositeDevice)
    → lookup_or [] name (group_into groups ds) ≡ lookup_or [] name groups ++ devices_of name ds
unfolding group_into devices_of
lookup_or-group_into name groups [] = sym (append-nil _)
lookup_or-group_into name groups (d ∷ ds) =
    let k = d.mapping.composition_name in
    let new = lookup_or [] k groups ++ d ∷ [] in
    let groups' = insert k new groups in
    let e = lookup_or-insert [] k name new groups in
    elim (Bool-cases (str_eq k name)) [
      | inl same ↦
          let here : lookup_or [] k groups ≡ lookup_or [] name groups =
            ap (λ j. lookup_or [] j groups) ((str_eq_iff k name).0 same) in
          rw (lookup_or-group_into name groups' ds, e, same, here)
            (append_assoc (lookup_or [] name groups) (d ∷ []) (devices_of name ds))
      | inr other ↦ rw (lookup_or-group_into name groups' ds, e, other) refl
    ]

append-cancel {ℓ} : {A : Type ℓ} (p s t : List A) → p ++ s ≡ p ++ t → s ≡ t
append-cancel [] s t h = h
append-cancel (x ∷ p) s t h = append-cancel p s t cc

-- Under one driver and node, two compositions have two pools.
pub pool_name_inj : (d n c c' : GoString) → pool_name d n c ≡ pool_name d n c' → c ≡ c'
unfolding pool_name
pool_name_inj d n c c' h =
    append-cancel (codes "-") c c'
      (append-cancel n _ _ (append-cancel (codes "-") _ _ (append-cancel d _ _ h)))

same_pool : (d n c c' : GoString) → str_eq (pool_name d n c) (pool_name d n c') ≡ str_eq c c'
same_pool d n c c' = ground (
  str_eq_iff c c',
  str_eq_iff (pool_name d n c) (pool_name d n c'),
  pool_name_inj d n c c',
  arith,
)

not-in-keys :
    (c : GoString) (groups : CompositeGroups)
    → All (λ j. c ≢ j) (keys groups)
    → lookup c groups ≡ none
unfolding lookup
not-in-keys c [] h = refl
not-in-keys c ((k, ds) ∷ groups) (ne, h) = ground (arith, str_eq_iff k c, not-in-keys c groups h)

module _ (driver node : GoString) where
  -- the pool of a composition, given the devices that it groups, if any
  pool_of : Option (List CompositeDevice) → Option Pool → Option Pool
  pool_of none other = other
  pool_of (some ds) other = some (record { slices = build_slices ds })

  -- what the pools hold, when no key is visited twice
  lookup-add_pools :
      (c : GoString) (groups : CompositeGroups) (pools : GoMap Pool)
      → AllDistinct (keys groups)
      → lookup (pool_name driver node c) (add_pools driver node groups pools)
        ≡ pool_of (lookup c groups) (lookup (pool_name driver node c) pools)
  unfolding add_pools lookup pool_of
  lookup-add_pools c [] pools h = refl
  lookup-add_pools c ((k, ds) ∷ groups) pools (ne, h) =
      let v : Pool = record { slices = build_slices ds } in
      let pools' = insert (pool_name driver node k) v pools in
      let e = lookup-insert (pool_name driver node k) (pool_name driver node c) v pools in
      let ih = lookup-add_pools c groups pools' h in
      elim (Bool-cases (str_eq k c)) [
        | inl same ↦
            let here : lookup c groups ≡ none =
              not-in-keys c groups (rw ((str_eq_iff k c).0 same) at ne) in
            rw (ih, e, here, same_pool driver node k c, same) refl
        | inr other ↦ rw (ih, e, same_pool driver node k c, other) refl
      ]

lookup-group_into-none :
    (name : GoString) (groups : CompositeGroups) (ds : List CompositeDevice)
    → devices_of name ds ≡ []
    → lookup name groups ≡ none
    → lookup name (group_into groups ds) ≡ none
unfolding group_into devices_of
lookup-group_into-none name groups [] e h = h
lookup-group_into-none name groups (d ∷ ds) e h =
    let k = d.mapping.composition_name in
    let new = lookup_or [] k groups ++ d ∷ [] in
    elim (Bool-cases (str_eq k name)) [
      | inl same ↦ absurd (cons-ne-nil d (devices_of name ds) (rw same at e))
      | inr other ↦
          lookup-group_into-none name (insert k new groups) ds (rw other at e)
            (lookup-insert k name new groups ∙ (rw other h))
    ]

group_into-AllDistinct :
    (groups : CompositeGroups) (ds : List CompositeDevice)
    → AllDistinct (keys groups)
    → AllDistinct (keys (group_into groups ds))
unfolding group_into
group_into-AllDistinct groups [] h = h
group_into-AllDistinct groups (d ∷ ds) h =
    let k = d.mapping.composition_name in
    let new = lookup_or [] k groups ++ d ∷ [] in
    group_into-AllDistinct (insert k new groups) ds (insert-AllDistinct k new groups h)

no_tail : (p s : GoString) → p ≢ p ++ b'-' ∷ s
no_tail p s e = absurd (omega (arith, ap length e, length-append p (b'-' ∷ s)))

-- the pool that stands for no composition is named like none
empty_name-ne : (d n c : GoString) → (d ++ (codes "-" ++ n)) ≢ pool_name d n c
unfolding pool_name codes
empty_name-ne d n c e = no_tail n c (append-cancel (codes "-") _ _ (append-cancel d _ _ e))

-- the pool with the slices of some devices, if there are any
abbrev pub pool_with : List CompositeDevice → Option Pool
pool_with [] = none
pool_with (d ∷ ds) = some (record { slices = build_slices (d ∷ ds) })

lookup-or_empty_pool :
    (d n c : GoString) (pools : GoMap Pool)
    → lookup (pool_name d n c) (or_empty_pool d n pools) ≡ lookup (pool_name d n c) pools
unfolding or_empty_pool lookup insert
lookup-or_empty_pool d n c [] =
    elim (Bool-cases (str_eq (d ++ (codes "-" ++ n)) (pool_name d n c))) [
      | inl e ↦ absurd (empty_name-ne d n c ((str_eq_iff _ _).0 e))
      | inr e ↦ rw e refl
    ]
lookup-or_empty_pool d n c (p ∷ ps) = refl

-- an order in which `range` may visit the groups: each key once, with its value
pub record IsVisit (visit : CompositeGroups → CompositeGroups) : Type 0 where
  pub same : (k : GoString) (groups : CompositeGroups) → lookup k (visit groups) ≡ lookup k groups
  pub once :
      (groups : CompositeGroups) → AllDistinct (keys groups) → AllDistinct (keys (visit groups))

module _ (visit : CompositeGroups → CompositeGroups) (v : IsVisit visit) (d n c : GoString)
    (ds : List CompositeDevice) where
  grouped :
      (mine : List CompositeDevice)
      → devices_of c ds ≡ mine
      → pool_of d n (lookup c (group_by_composition ds)) none ≡ pool_with mine
  unfolding group_by_composition pool_of lookup lookup_or
  grouped [] e = rw (lookup-group_into-none c [] ds e refl) refl
  grouped (x ∷ xs) e = elim (Option-cases (lookup c (group_into [] ds))) [
    | inl h ↦
        absurd
          (cons-ne-nil x xs (sym e ∙ sym (lookup_or-group_into c [] ds) ∙ lookup_or-none [] c _ h))
    | inr (ys, h) ↦
        let q : ys ≡ x ∷ xs = sym (lookup_or-eq [] c _ ys h) ∙ lookup_or-group_into c [] ds ∙ e in
        rw (h, q) refl
  ]

  -- Whatever the order in which the groups are visited, the pool that `Publish` hands over for a composition has
  -- the slices of exactly the composition's devices, in their order; a composition without devices
  -- has no pool.
  pub driver_resources_lem :
      lookup (pool_name d n c) (driver_resources visit d n ds).pools ≡ pool_with (devices_of c ds)
  unfolding driver_resources lookup group_by_composition
  driver_resources_lem =
      lookup-or_empty_pool d n c _
      ∙ lookup-add_pools d n c (visit (group_by_composition ds)) []
          (v.once _ (group_into-AllDistinct [] ds tt))
      ∙ rw (v.same c (group_by_composition ds)) (grouped (devices_of c ds) refl)
