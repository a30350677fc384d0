-- ===== src/Plugin/Prepare.antt =====
-- pkg/plugin/plugin.go: `prepareClaim`. The workers of a phase run in parallel, and each writes only
-- its own work item: whatever their order, `created`, `fetched` and `prepared` are what each was
-- answered. `resolve` is the parameters' resolver, if there is one. Events and metrics are left out.
pub mod Assemble
pub mod Cleanup
pub mod Effect
pub mod Devices
use composite_dra_driver.Prelude.{
  ℕ, zero, suc, Bool, true, false, map, List, [], ◌∷◌, ◌++◌, Option, none, some, GoString, is_empty,
  str_eq, GoMap, insert, concat, if◌then◌else◌,
}
use composite_dra_driver.Prelude.Result.{Result, ok, err, ◌>>=◌}
use composite_dra_driver.Resource.{Attributes}
use composite_dra_driver.Store.{DeviceMember, DeviceMapping}
use composite_dra_driver.Store.Devices.{get}
use composite_dra_driver.Store.State.{StoredShadows}
use composite_dra_driver.Plugin.{
  ShadowClaimInfo, ShadowRecord, AllocationResult, ResourceClaim, PreparedDevice, CompositePlugin,
  Call,
}
use composite_dra_driver.Plugin.State.{persist_shadows}
use composite_dra_driver.Plugin.Unprepare.{cleanup_shadows}
use composite_dra_driver.Plugin.Prepare.Assemble.{MemberWork, assemble, all_devices}

pub data PrepareError (E : Type 0) : Type 0 where
  not_allocated : PrepareError E
  unknown_device : GoString → GoString → PrepareError E
  get_existing_shadow create_shadow prepare_via_grpc : DeviceMember → E → PrepareError E

-- `Create`'s answer
pub data Created (E : Type 0) : Type 0 where
  made : ShadowClaimInfo → Created E
  already_exists : Created E
  refused : E → Created E

abbrev pub Resolve : Type 0
Resolve = Option (GoString → Attributes → ℕ → Option GoString)

-- what the loop over the allocation results computes
pub record Collected : Type 0 where
  pub composition : GoString
  pub work : List MemberWork
  pub pair_ordinal : ℕ

resolve_config : Resolve → DeviceMember → ℕ → Option GoString
resolve_config none member ordinal = none
resolve_config (some resolve) member ordinal = resolve member.source_name member.attributes ordinal

-- the loop over `mapping.Members`
pub member_work : Resolve → AllocationResult → ℕ → ℕ → List DeviceMember → List MemberWork
unfolding resolve_config
member_work resolve alloc ordinal i [] = []
member_work resolve alloc ordinal i (member ∷ members) =
    record {
      pair_idx = ordinal;
      member_idx = i;
      member = member;
      alloc_result = alloc;
      opaque_config = resolve_config resolve member ordinal;
    }
    ∷ member_work resolve alloc ordinal (suc i) members

add_mapping : Resolve → AllocationResult → DeviceMapping → Collected → Collected
unfolding member_work
add_mapping resolve alloc mapping c = record {
  composition = if is_empty c.composition then mapping.composition_name else c.composition;
  work = c.work ++ member_work resolve alloc c.pair_ordinal 0 mapping.members;
  pair_ordinal = suc c.pair_ordinal;
}

module _ {E : Type 0} (resolve : Resolve) (p : CompositePlugin) where
  -- the loop over the allocation results
  unfoldable pub collect : List AllocationResult → Collected → Result (PrepareError E) Collected
  unfolding add_mapping
  collect [] c = ok c
  collect (alloc ∷ allocs) c = elim (str_eq alloc.driver p.driver_name) [
    | false ↦ collect allocs c
    | true ↦ elim (get alloc.pool alloc.device p.device_store) [
      | none ↦ err (unknown_device alloc.pool alloc.device)
      | some mapping ↦ collect allocs (add_mapping resolve alloc mapping c)
    ]
  ]

module _ {E : Type 0} (created : MemberWork → Created E)
    (fetched : MemberWork → Result E ShadowClaimInfo) where
  fetched_shadow : DeviceMember → Result E ShadowClaimInfo → Result (PrepareError E) ShadowClaimInfo
  fetched_shadow member (ok info) = ok info
  fetched_shadow member (err e) = err (get_existing_shadow member e)

  -- one worker of the first phase
  pub shadow_of : MemberWork → Created E → Result (PrepareError E) ShadowClaimInfo
  unfolding fetched_shadow
  shadow_of w (made info) = ok info
  shadow_of w already_exists = fetched_shadow w.member (fetched w)
  shadow_of w (refused e) = err (create_shadow w.member e)

  -- the work items whose shadow claim is there, with its record
  unfoldable pub shadows_of : GoString → List MemberWork → List (MemberWork × ShadowRecord)
  unfolding shadow_of
  shadows_of composition [] = []
  shadows_of composition (w ∷ ws) = elim (shadow_of w (created w)) [
    | ok info ↦
        (w, record { driver_name = w.member.driver; composition = composition; info = info })
        ∷ shadows_of composition ws
    | err e ↦ shadows_of composition ws
  ]

  -- the first error
  unfoldable pub first_error : List MemberWork → Option (PrepareError E)
  unfolding shadow_of
  first_error [] = none
  first_error (w ∷ ws) = elim (shadow_of w (created w)) [
    | ok info ↦ first_error ws
    | err e ↦ some e
  ]

-- the second phase: the device IDs of each work item, or the first error
unfoldable pub grpc_phase :
    {E : Type 0}
    → (MemberWork → ShadowRecord → Result E (List (List GoString)))
    → List (MemberWork × ShadowRecord)
    → Result (PrepareError E) (List (MemberWork × List GoString))
grpc_phase prepared [] = ok []
grpc_phase prepared ((w, sr) ∷ ws) = elim (prepared w sr) [
  | err e ↦ err (prepare_via_grpc w.member e)
  | ok devices ↦ (do rest ← grpc_phase prepared ws; ok ((w, concat devices) ∷ rest))
]

pub records : List (MemberWork × ShadowRecord) → List ShadowRecord
records = map (λ (x : MemberWork × ShadowRecord). x.1)

-- the result, the calls that clean up, and the plugin afterwards
pub record Prepared (E : Type 0) : Type 0 where
  pub result : Result (PrepareError E) (List PreparedDevice)
  pub calls : List Call
  pub plugin : CompositePlugin

module _ {E : Type 0} (marshal : StoredShadows → Result E GoString)
    (unmarshal : GoString → Result E StoredShadows) (resolve : Resolve)
    (created : MemberWork → Created E) (fetched : MemberWork → Result E ShadowClaimInfo)
    (prepared : MemberWork → ShadowRecord → Result E (List (List GoString))) (fault : Option E)
    (claim : ResourceClaim) (p : CompositePlugin) where
  fail_with : PrepareError E → List ShadowRecord → Prepared E
  fail_with e shadows = record { result = err e; calls = cleanup_shadows shadows; plugin = p }

  -- after the second phase
  finish_claim :
      List ShadowRecord
      → ℕ
      → Result (PrepareError E) (List (MemberWork × List GoString))
      → Prepared E
  unfolding fail_with
  finish_claim shadows pairs (err e) = fail_with e shadows
  finish_claim shadows pairs (ok ids) = record {
    result = ok (all_devices 0 pairs (assemble ids []));
    calls = [];
    plugin = record p {
      shadow_claims = insert claim.uid shadows p.shadow_claims;
      state = persist_shadows marshal unmarshal fault claim shadows p.state;
    };
  }

  -- after the first phase
  second_phase : Collected → List (MemberWork × ShadowRecord) → Option (PrepareError E) → Prepared E
  unfolding fail_with finish_claim records
  second_phase c shadows (some e) = fail_with e (records shadows)
  second_phase c shadows none =
      finish_claim (records shadows) c.pair_ordinal (grpc_phase prepared shadows)

  run_phases : Result (PrepareError E) Collected → Prepared E
  unfolding second_phase fail_with
  run_phases (err e) = fail_with e []
  run_phases (ok c) =
      second_phase c (shadows_of created fetched c.composition c.work)
        (first_error created fetched c.work)

  unfoldable pub allocated : Option (List AllocationResult) → Result (PrepareError E) Collected
  allocated none = err not_allocated
  allocated (some allocs) =
      collect resolve p allocs (record { composition = []; work = []; pair_ordinal = 0 })

  unfoldable pub prepare_claim : Prepared E
  unfolding run_phases allocated
  prepare_claim = run_phases (allocated claim.allocation)

-- What the API server and the drivers answer for one claim.
pub record Answers (E : Type 0) : Type 0 where
  pub created : MemberWork → Created E
  pub fetched : MemberWork → Result E ShadowClaimInfo
  pub prepared : MemberWork → ShadowRecord → Result E (List (List GoString))
  pub fault : Option E

-- the requests for several claims, one after the other: their results by UID
pub prepare_resource_claims :
    {E : Type 0}
    → (StoredShadows → Result E GoString)
    → (GoString → Result E StoredShadows)
    → Resolve
    → (ResourceClaim → Answers E)
    → List ResourceClaim
    → CompositePlugin
    → GoMap (Result (PrepareError E) (List PreparedDevice))
    → GoMap (Result (PrepareError E) (List PreparedDevice)) × CompositePlugin
unfolding prepare_claim
prepare_resource_claims marshal unmarshal resolve answers [] p results = (results, p)
prepare_resource_claims marshal unmarshal resolve answers (claim ∷ claims) p results =
    let a = answers claim in
    let r =
      prepare_claim marshal unmarshal resolve a.created a.fetched a.prepared a.fault claim p in
    prepare_resource_claims marshal unmarshal resolve answers claims r.plugin
      (insert claim.uid r.result results)
