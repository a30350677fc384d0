-- ===== src/Synthesizer/Explicit/Exclusive.antt =====
-- No device of a source stands in two composite devices of explicit pairing.
use composite_dra_driver.Prelude.{
  ◌≡◌, refl, sym, ap, ◌∙◌, arith, Bool, ◌&&◌, ◌||◌, List, [], ◌∷◌, Option, none, some, GoString,
  GoMap, lookup_or, lookup_or-insert, insert, has, str_eq, str_eq_iff, str_eq_refl, All, All-mono,
  All-at, Elem, ◌≢◌, Bool-cases, inl, inr,
}
use composite_dra_driver.Prelude.Run.{
  returns, ◌>>=◌, IfReturns, IfReturns-bind, IfReturns-at, IfReturns-both,
}
use composite_dra_driver.Config.{
  SourceConfig, CompositionConfig, ExplicitPairConfig, ExplicitNodePool,
}
use composite_dra_driver.Resource.{Attributes}
use composite_dra_driver.Store.{DeviceMember}
use composite_dra_driver.Synthesizer.Devices.{SourceDevice, CompositeDevice, DeviceMap}
use composite_dra_driver.Synthesizer.Build.{build_composite_device}
use composite_dra_driver.Synthesizer.Build.Origin.{
  AllNamed, AllChosen, AllOrigins, build-AllOrigins,
}
use composite_dra_driver.Synthesizer.Matching.{sort_by_name}
use composite_dra_driver.Synthesizer.Matching.Order.{Pairs, Pairs-sort_by_name}
use composite_dra_driver.Synthesizer.Explicit.{
  Consumed, find_pool, no_consumed, pair_members, consume_devices, consume, place, explicit_pairs,
  pair_with_explicit,
}
use composite_dra_driver.Synthesizer.Explicit.Taken.{
  taken, IsFree, IsTaken, AllFound, pair_members-AllFound,
}

-- `consume` takes the devices of the combo, and frees none
taken-insert :
    (src device s d : GoString) (consumed : Consumed)
    → taken (insert src (device ∷ lookup_or [] src consumed) consumed) s d
      ≡ ((str_eq src s && str_eq device d) || taken consumed s d)
unfolding taken has
taken-insert src device s d consumed =
    let e = lookup_or-insert [] src s (device ∷ lookup_or [] src consumed) consumed in
    elim (Bool-cases (str_eq src s)) [
      | inl same ↦
          let here : lookup_or [] src consumed ≡ lookup_or [] s consumed =
            ap (λ j. lookup_or [] j consumed) ((str_eq_iff src s).0 same) in
          rw (e, same, here) refl
      | inr other ↦ rw (e, other) refl
    ]

IsTaken-grows :
    (src device s d : GoString) (consumed : Consumed)
    → IsTaken consumed s d
    → IsTaken (insert src (device ∷ lookup_or [] src consumed) consumed) s d
IsTaken-grows src device s d consumed h = taken-insert src device s d consumed ∙ ground (arith, h)

consume_devices-grows :
    (src : GoString) (devs : List SourceDevice) (consumed : Consumed) (s d : GoString)
    → IsTaken consumed s d
    → IsTaken (consume_devices src devs consumed) s d
unfolding consume_devices
consume_devices-grows src [] consumed s d h = h
consume_devices-grows src (dev ∷ devs) consumed s d h =
    consume_devices-grows src devs
      (insert src (dev.device_name ∷ lookup_or [] src consumed) consumed) s d
      (IsTaken-grows src dev.device_name s d consumed h)

consume-grows :
    (combo : DeviceMap) (consumed : Consumed) (s d : GoString)
    → IsTaken consumed s d
    → IsTaken (consume combo consumed) s d
unfolding consume
consume-grows [] consumed s d h = h
consume-grows ((src, devs) ∷ combo) consumed s d h =
    consume-grows combo (consume_devices src devs consumed) s d
      (consume_devices-grows src devs consumed s d h)

consume_devices-AllTaken :
    (src : GoString) (devs : List SourceDevice) (consumed : Consumed)
    → All (λ d. IsTaken (consume_devices src devs consumed) src d.device_name) devs
unfolding consume_devices
consume_devices-AllTaken src [] consumed = tt
consume_devices-AllTaken src (dev ∷ devs) consumed =
    let next = insert src (dev.device_name ∷ lookup_or [] src consumed) consumed in
    (
      consume_devices-grows src devs next src dev.device_name (
          taken-insert src dev.device_name src dev.device_name consumed
          ∙ rw (str_eq_refl src, str_eq_refl dev.device_name) refl),
      consume_devices-AllTaken src devs next,
    )

consume-AllTaken :
    (combo : DeviceMap) (consumed : Consumed) → AllChosen (IsTaken (consume combo consumed)) combo
unfolding consume
consume-AllTaken [] consumed = tt
consume-AllTaken ((src, devs) ∷ combo) consumed =
    let next = consume_devices src devs consumed in
    (
      All-mono devs (λ d h. consume-grows combo next src d.device_name h)
          (consume_devices-AllTaken src devs consumed),
      consume-AllTaken combo next,
    )

-- no device of a source is a member of both
abbrev pub AreExclusive : CompositeDevice → CompositeDevice → Type 0
AreExclusive a b =
    (m m' : DeviceMember)
    → Elem m a.mapping.members
    → Elem m' b.mapping.members
    → m.source_name ≡ m'.source_name
    → m.device ≢ m'.device

AreExclusive-flip : (a b : CompositeDevice) → AreExclusive a b → AreExclusive b a
AreExclusive-flip a b h m m' e e' s d = h m' m e' e (sym s) (sym d)

abbrev AllFree : Consumed → CompositeDevice → Type 0
AllFree consumed cd = AllOrigins (IsFree consumed) cd.mapping.members

apart :
    (consumed : Consumed) (a b : CompositeDevice)
    → AllOrigins (IsTaken consumed) a.mapping.members
    → AllFree consumed b
    → AreExclusive a b
apart consumed a b used free m m' e e' s d =
    let t = All-at (λ x. IsTaken consumed x.source_name x.device) a.mapping.members used m e in
    let f = All-at (λ x. IsFree consumed x.source_name x.device) b.mapping.members free m' e' in
    let q : taken consumed m.source_name m.device ≡ taken consumed m'.source_name m'.device =
      ap (λ x. taken consumed x m.device) s ∙ ap (taken consumed m'.source_name) d in
    cc

IsFree-of_consume :
    (combo : DeviceMap) (consumed : Consumed) (s d : GoString)
    → IsFree (consume combo consumed) s d
    → IsFree consumed s d
IsFree-of_consume combo consumed s d h = elim (Bool-cases (taken consumed s d)) [
  | inr free ↦ free
  | inl used ↦ (let q = consume-grows combo consumed s d used in cc)
]

module _ (range_combo : DeviceMap → DeviceMap) (sources : GoMap SourceConfig)
    (named : AllNamed sources) (matches : GoString → Attributes → Bool) (comp : CompositionConfig)
    (by_source : DeviceMap) where
  IsSplit : Consumed → List CompositeDevice → Type 0
  IsSplit consumed cds = All (AllFree consumed) cds × Pairs AreExclusive cds

  -- one more pair
  IsSplit-next :
      (ep : ExplicitPairConfig) (combo : DeviceMap) (consumed : Consumed) (cd : CompositeDevice)
      (rest : List CompositeDevice)
      → AllFree consumed cd
      → AllOrigins (IsTaken (consume combo consumed)) cd.mapping.members
      → IsSplit (consume combo consumed) rest
      → IsSplit consumed (place ep cd ∷ rest)
  unfolding IsSplit place
  IsSplit-next ep combo consumed cd rest free used (frees, pairs) = (
    (
      free,
      All-mono rest
          (λ b h.
            All-mono b.mapping.members
              (λ m f. IsFree-of_consume combo consumed m.source_name m.device f) h)
          frees,
    ),
    (All-mono rest (λ b h. apart (consume combo consumed) (place ep cd) b used h) frees, pairs),
  )

  found-IsSplit :
      (ep : ExplicitPairConfig) (eps : List ExplicitPairConfig) (consumed : Consumed)
      → ((consumed' : Consumed)
          → IfReturns
              (IsSplit consumed')
              (explicit_pairs range_combo sources matches comp by_source eps consumed'))
      → (found : Option DeviceMap) → AllFound matches by_source consumed found
      → IfReturns {A = List CompositeDevice} (IsSplit consumed) (elim found [
        | none ↦ explicit_pairs range_combo sources matches comp by_source eps consumed
        | some combo ↦ (do
          cd ← build_composite_device range_combo sources comp combo
          rest ←
              explicit_pairs range_combo sources matches comp by_source eps (consume combo consumed)
          returns (place ep cd ∷ rest))
      ])
  unfolding AllFound
  found-IsSplit ep eps consumed rest none a = rest consumed
  found-IsSplit ep eps consumed rest (some combo) a =
      IfReturns-bind
        (λ cd.
          AllFree consumed cd × AllOrigins (IsTaken (consume combo consumed)) cd.mapping.members)
        (IsSplit consumed) (build_composite_device range_combo sources comp combo) _
        (IfReturns-both _ _ (build_composite_device range_combo sources comp combo)
          (build-AllOrigins (IsFree consumed) range_combo sources comp combo named a)
          (build-AllOrigins (IsTaken (consume combo consumed)) range_combo sources comp combo named
            (consume-AllTaken combo consumed)))
        λ cd o.
          IfReturns-bind (IsSplit (consume combo consumed)) (IsSplit consumed)
            (explicit_pairs range_combo sources matches comp by_source eps (consume combo consumed))
            _ (rest (consume combo consumed))
            λ cds split. IsSplit-next ep combo consumed cd cds o.0 o.1 split

  explicit_pairs-IsSplit :
      (eps : List ExplicitPairConfig) (consumed : Consumed)
      → IfReturns
          (IsSplit consumed)
          (explicit_pairs range_combo sources matches comp by_source eps consumed)
  unfolding explicit_pairs IsSplit
  explicit_pairs-IsSplit [] consumed = (tt, tt)
  explicit_pairs-IsSplit (ep ∷ eps) consumed =
      IfReturns-bind (AllFound matches by_source consumed) (IsSplit consumed)
        (pair_members matches by_source consumed ep.selectors comp.members []) _
        (pair_members-AllFound matches by_source consumed ep.selectors comp.members [] tt)
        λ found a. found-IsSplit ep eps consumed (explicit_pairs-IsSplit eps) found a

  split-Pairs :
      (consumed : Consumed) (cds : List CompositeDevice)
      → IsSplit consumed cds
      → Pairs AreExclusive cds
  unfolding IsSplit
  split-Pairs consumed cds split = split.1

  explicit-Pairs :
      (pool : Option ExplicitNodePool)
      → IfReturns {A = List CompositeDevice} (Pairs AreExclusive) (elim pool [
        | none ↦ returns []
        | some pool' ↦ (do
          result ←
              explicit_pairs range_combo sources matches comp by_source pool'.pairs
                (no_consumed comp.members [])
          returns (sort_by_name result))
      ])
  explicit-Pairs none = tt
  explicit-Pairs (some pool) =
      let consumed = no_consumed comp.members [] in
      IfReturns-bind (IsSplit consumed) (Pairs AreExclusive)
        (explicit_pairs range_combo sources matches comp by_source pool.pairs consumed) _
        (explicit_pairs-IsSplit pool.pairs consumed)
        λ cds split.
          Pairs-sort_by_name AreExclusive AreExclusive-flip cds (split-Pairs consumed cds split)

  -- If the sources stand under their names, no device of a source is a member of two of the composite
  -- devices that `pairWithExplicit` returns.
  pub pair_with_explicit-AreExclusive :
      (node_labels : GoMap GoString) (cds : List CompositeDevice)
      → pair_with_explicit range_combo sources (some matches) node_labels comp by_source
        ≡ returns cds
      → Pairs AreExclusive cds
  unfolding pair_with_explicit
  pair_with_explicit-AreExclusive node_labels cds e =
      IfReturns-at (Pairs AreExclusive) _ cds
        (explicit-Pairs
          (find_pool (lookup_or [] comp.node_pool_label_key node_labels) comp.node_pools))
        e
