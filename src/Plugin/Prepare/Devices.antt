-- ===== src/Plugin/Prepare/Devices.antt =====
-- The devices that the kubelet gets for a prepared claim.
use composite_dra_driver.Prelude.{
  ◌≡◌, refl, sym, ap, ◌∙◌, subst, List, [], ◌∷◌, map, concat, Option, none, some, GoString, inl,
  inr,
}
use composite_dra_driver.Prelude.Result.{Result, ok, err, Result-cases, ok_parts, ok_inj}
use composite_dra_driver.Store.State.{StoredShadows}
use composite_dra_driver.Plugin.{
  ShadowClaimInfo, ShadowRecord, ResourceClaim, PreparedDevice, CompositePlugin,
}
use composite_dra_driver.Plugin.Prepare.Assemble.{MemberWork, assemble, all_devices}
use composite_dra_driver.Plugin.Prepare.Assemble.Grouped.{devices_from, assemble_lem}
use composite_dra_driver.Plugin.Prepare.{
  PrepareError, prepare_via_grpc, Created, Resolve, Collected, shadow_of, shadows_of, first_error,
  fail_with, finish_claim, second_phase, run_phases, allocated, grpc_phase, prepare_claim,
}

-- the work items, without what a phase has added
works : {X : Type 0} → List (MemberWork × X) → List MemberWork
works = map (λ x. x.0)

module _ {E : Type 0} (created : MemberWork → Created E)
    (fetched : MemberWork → Result E ShadowClaimInfo) where
  works-shadows_of :
      (composition : GoString) (ws : List MemberWork)
      → first_error created fetched ws ≡ none
      → works (shadows_of created fetched composition ws) ≡ ws
  unfolding shadows_of first_error works
  works-shadows_of composition [] h = refl
  works-shadows_of composition (w ∷ ws) h =
      elim (Result-cases (shadow_of created fetched w (created w))) [
        | inl (x, e) ↦
            (let q : ◌≡◌ {A = Option (PrepareError E)} (some x) none = rw (e, first_error) at h in
              cc)
        | inr (info, e) ↦
            rw (e, shadows_of)
              (ap (◌∷◌ w) (works-shadows_of composition ws (rw (e, first_error) at h)))
      ]

-- each work item has the device IDs of its driver's answer for its shadow claim
pub IsAnswered :
    {E : Type 0}
    → (MemberWork → ShadowRecord → Result E (List (List GoString)))
    → List (MemberWork × ShadowRecord)
    → List (MemberWork × List GoString)
    → Type 0
IsAnswered prepared [] [] = Unit
IsAnswered prepared ((w, sr) ∷ ws) ((v, ids) ∷ rest) =
    (v ≡ w)
    × ((devices : List (List GoString)) × (prepared w sr ≡ ok devices) × (ids ≡ concat devices))
    × IsAnswered prepared ws rest
IsAnswered prepared [] (x ∷ rest) = ⊥
IsAnswered prepared (x ∷ ws) [] = ⊥

grpc_phase-IsAnswered :
    {E : Type 0} (prepared : MemberWork → ShadowRecord → Result E (List (List GoString)))
    (ws : List (MemberWork × ShadowRecord)) (ids : List (MemberWork × List GoString))
    → grpc_phase prepared ws ≡ ok ids
    → IsAnswered prepared ws ids
unfolding grpc_phase IsAnswered
grpc_phase-IsAnswered prepared [] ids h =
    let e : [] ≡ ids = ok_inj h in subst (IsAnswered prepared []) e tt
grpc_phase-IsAnswered prepared ((w, sr) ∷ ws) ids h = elim (Result-cases (prepared w sr)) [
  | inl (x, e) ↦ absurd (
      let q : ◌≡◌ {A = Result (PrepareError _) (List (MemberWork × List GoString))}
          (err (prepare_via_grpc w.member x)) (ok ids) =
        rw (e, grpc_phase) at h in
      cc)
  | inr (devices, e) ↦
      let (rest, f, g) = ok_parts (grpc_phase prepared ws) _ (rw (e, grpc_phase) at h) in
      let q : (w, concat devices) ∷ rest ≡ ids = ok_inj g in
      subst (IsAnswered prepared ((w, sr) ∷ ws)) q
        (refl, (devices, e, refl), grpc_phase-IsAnswered prepared ws rest f)
]

module _ {E : Type 0} (marshal : StoredShadows → Result E GoString)
    (unmarshal : GoString → Result E StoredShadows) (resolve : Resolve)
    (created : MemberWork → Created E) (fetched : MemberWork → Result E ShadowClaimInfo)
    (prepared : MemberWork → ShadowRecord → Result E (List (List GoString))) (fault : Option E)
    (claim : ResourceClaim) (p : CompositePlugin) where
  -- What `devices` is: the devices of the work items of `c`, with their shadow claims, by the index
  -- of the composite device, with the IDs that the drivers answered.
  pub IsPreparedFor : Collected → List PreparedDevice → Type 0
  IsPreparedFor c devices =
      (shadows : List (MemberWork × ShadowRecord)) × (ids : List (MemberWork × List GoString))
      × (works shadows ≡ c.work)
      × IsAnswered prepared shadows ids
      × (devices ≡ devices_from 0 c.pair_ordinal ids)

  second_phase-devices :
      (c : Collected) (first : Option (PrepareError E)) (devices : List PreparedDevice)
      → first_error created fetched c.work ≡ first
      → (second_phase marshal unmarshal resolve created fetched prepared fault claim p c
          (shadows_of created fetched c.composition c.work)
          first).result
        ≡ ok devices
      → IsPreparedFor c devices
  unfolding second_phase fail_with finish_claim IsPreparedFor
  second_phase-devices c (some e) devices f h = cc
  second_phase-devices c none devices f h =
      let shadows = shadows_of created fetched c.composition c.work in
      elim (Result-cases (grpc_phase prepared shadows)) [
        | inl (x, e) ↦ absurd (
            let q : ◌≡◌ {A = Result (PrepareError E) (List PreparedDevice)} (err x) (ok devices) =
              rw (e, finish_claim, fail_with) at h in
            cc)
        | inr (ids, e) ↦
            let q : all_devices 0 c.pair_ordinal (assemble ids []) ≡ devices =
              ok_inj (rw (e, finish_claim) at h) in
            (
              shadows,
              ids,
              works-shadows_of created fetched c.composition c.work f,
              grpc_phase-IsAnswered prepared shadows ids e,
              sym q ∙ assemble_lem c.pair_ordinal ids,
            )
      ]

  -- If preparing a claim succeeds, its composite devices are known, and the kubelet gets one device
  -- for each that has a member: with the request, pool and name of its allocation result, and with
  -- the device IDs that the drivers answered for its members, in the members' order.
  pub prepare_claim-devices :
      (devices : List PreparedDevice)
      → (prepare_claim marshal unmarshal resolve created fetched prepared fault claim p).result
        ≡ ok devices
      → (c : Collected) × (allocated marshal unmarshal resolve created fetched prepared fault claim
            p claim.allocation
          ≡ ok c)
        × IsPreparedFor c devices
  unfolding prepare_claim run_phases fail_with
  prepare_claim-devices devices h =
      let found =
        allocated marshal unmarshal resolve created fetched prepared fault claim p
          claim.allocation in
      elim (Result-cases found) [
        | inl (x, e) ↦ absurd (
            let q : ◌≡◌ {A = Result (PrepareError E) (List PreparedDevice)} (err x) (ok devices) =
              rw (e, run_phases, fail_with) at h in
            cc)
        | inr (c, e) ↦ (
          c,
          e,
          second_phase-devices c (first_error created fetched c.work) devices refl
              (rw (e, run_phases) at h),
        )
      ]
