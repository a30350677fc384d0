-- ===== src/Plugin/Prepare/Cleanup.antt =====
-- A claim is prepared as a whole, or what was made for it is undone.
use composite_dra_driver.Prelude.{
  ℕ, suc, ◌≡◌, refl, ap, List, [], ◌∷◌, length, Option, none, some, GoString, lookup,
  lookup-insert_self, inl, inr,
}
use composite_dra_driver.Prelude.Result.{Result, ok, err, Result-cases}
use composite_dra_driver.Store.State.{StoredShadows}
use composite_dra_driver.Plugin.{
  ShadowClaimInfo, ShadowRecord, ResourceClaim, PreparedDevice, CompositePlugin,
}
use composite_dra_driver.Plugin.Unprepare.{undo_calls, cleanup_shadows}
use composite_dra_driver.Plugin.Prepare.Assemble.{MemberWork}
use composite_dra_driver.Plugin.Prepare.{
  PrepareError, Created, Resolve, Collected, Prepared, shadow_of, shadows_of, first_error, records,
  fail_with, finish_claim, second_phase, run_phases, allocated, grpc_phase, prepare_claim,
}

module _ {E : Type 0} (created : MemberWork → Created E)
    (fetched : MemberWork → Result E ShadowClaimInfo) where
  length-shadows_of :
      (composition : GoString) (ws : List MemberWork)
      → first_error created fetched ws ≡ none
      → length (records (shadows_of created fetched composition ws)) ≡ length ws
  unfolding shadows_of first_error records
  length-shadows_of composition [] h = refl
  length-shadows_of composition (w ∷ ws) h =
      elim (Result-cases (shadow_of created fetched w (created w))) [
        | inl (x, e) ↦
            (let q : ◌≡◌ {A = Option (PrepareError E)} (some x) none = rw (e, first_error) at h in
              cc)
        | inr (info, e) ↦
            rw (e, shadows_of)
              (ap suc (length-shadows_of composition ws (rw (e, first_error) at h)))
      ]

module _ {E : Type 0} (marshal : StoredShadows → Result E GoString)
    (unmarshal : GoString → Result E StoredShadows) (resolve : Resolve)
    (created : MemberWork → Created E) (fetched : MemberWork → Result E ShadowClaimInfo)
    (prepared : MemberWork → ShadowRecord → Result E (List (List GoString))) (fault : Option E)
    (claim : ResourceClaim) (p : CompositePlugin) where
  -- With records `shadows` for the work `work`: either the claim is recorded with a shadow claim
  -- for every work item and nothing is undone, or the plugin is as before and all is undone.
  pub AllOrNothing :
      List MemberWork
      → List ShadowRecord
      → Prepared E
      → Result (PrepareError E) (List PreparedDevice)
      → Type 0
  AllOrNothing work shadows r (ok devices) =
      (lookup claim.uid r.plugin.shadow_claims ≡ some shadows)
      × (length shadows ≡ length work)
      × (r.calls ≡ [])
  AllOrNothing work shadows r (err e) = (r.plugin ≡ p) × (r.calls ≡ undo_calls shadows)

  finish_claim_lem :
      (work : List MemberWork) (shadows : List ShadowRecord) (pairs : ℕ)
      (ids : Result (PrepareError E) (List (MemberWork × List GoString)))
      → length shadows ≡ length work
      → (let r =
            finish_claim marshal unmarshal resolve created fetched prepared fault claim p shadows
              pairs ids in
          AllOrNothing work shadows r r.result)
  unfolding finish_claim fail_with AllOrNothing cleanup_shadows
  finish_claim_lem work shadows pairs (ok ids) h =
      (lookup-insert_self claim.uid shadows p.shadow_claims, h, refl)
  finish_claim_lem work shadows pairs (err e) h = (refl, refl)

  second_phase_lem :
      (c : Collected)
      → (first : Option (PrepareError E)) → first_error created fetched c.work ≡ first
      → (let shadows = shadows_of created fetched c.composition c.work in
          let r =
            second_phase marshal unmarshal resolve created fetched prepared fault claim p c shadows
              first in
          AllOrNothing c.work (records shadows) r r.result)
  unfolding second_phase fail_with AllOrNothing cleanup_shadows
  second_phase_lem c (some e) h = (refl, refl)
  second_phase_lem c none h =
      let shadows = shadows_of created fetched c.composition c.work in
      finish_claim_lem c.work (records shadows) c.pair_ordinal (grpc_phase prepared shadows)
        (length-shadows_of created fetched c.composition c.work h)

  -- If the composite devices of a claim are known, preparing it either succeeds, and then the plugin
  -- records the shadow claims that were there or made, as many as the devices have members, and
  -- undoes none, or it fails, and then the plugin is as before and every shadow claim that was there
  -- or made is unprepared and deleted.
  pub prepare_claim-AllOrNothing :
      (c : Collected)
      → allocated marshal unmarshal resolve created fetched prepared fault claim p claim.allocation
        ≡ ok c
      → (let r = prepare_claim marshal unmarshal resolve created fetched prepared fault claim p in
          AllOrNothing c.work
            (records (shadows_of created fetched c.composition c.work))
            r
            r.result)
  unfolding prepare_claim run_phases
  prepare_claim-AllOrNothing c e =
      rw e (second_phase_lem c (first_error created fetched c.work) refl)
