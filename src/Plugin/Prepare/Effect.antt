-- ===== src/Plugin/Prepare/Effect.antt =====
-- What preparing a claim does to the plugin.
use composite_dra_driver.Prelude.{ℕ, List, Option, none, some, GoString, insert}
use composite_dra_driver.Prelude.Result.{Result, ok, err}
use composite_dra_driver.Store.State.{StoredShadows}
use composite_dra_driver.Plugin.{ShadowClaimInfo, ShadowRecord, ResourceClaim, CompositePlugin}
use composite_dra_driver.Plugin.State.{persist_shadows}
use composite_dra_driver.Plugin.Prepare.Assemble.{MemberWork}
use composite_dra_driver.Plugin.Prepare.{
  PrepareError, Created, Resolve, Collected, shadows_of, first_error, records, fail_with,
  finish_claim, second_phase, run_phases, allocated, grpc_phase, prepare_claim,
}

-- A predicate that holds of the plugin, and of the plugin with any records under the claim's UID in
-- memory and in the state store, holds after the request.
module _ {E : Type 0} (marshal : StoredShadows → Result E GoString)
    (unmarshal : GoString → Result E StoredShadows) (resolve : Resolve)
    (created : MemberWork → Created E) (fetched : MemberWork → Result E ShadowClaimInfo)
    (prepared : MemberWork → ShadowRecord → Result E (List (List GoString))) (fault : Option E)
    (claim : ResourceClaim) (p : CompositePlugin) (P : CompositePlugin → Type 0) (before : P p)
    (recorded : (shadows : List ShadowRecord)
      → P (record p {
        shadow_claims = insert claim.uid shadows p.shadow_claims;
        state = persist_shadows marshal unmarshal fault claim shadows p.state;
      })) where
  finish_claim_elim :
      (shadows : List ShadowRecord) (pairs : ℕ)
      (ids : Result (PrepareError E) (List (MemberWork × List GoString)))
      → P
          (finish_claim marshal unmarshal resolve created fetched prepared fault claim p shadows
            pairs ids).plugin
  unfolding finish_claim fail_with
  finish_claim_elim shadows pairs (ok ids) = recorded shadows
  finish_claim_elim shadows pairs (err e) = before

  second_phase_elim :
      (c : Collected) (shadows : List (MemberWork × ShadowRecord)) (first : Option (PrepareError E))
      → P
          (second_phase marshal unmarshal resolve created fetched prepared fault claim p c shadows
            first).plugin
  unfolding second_phase fail_with
  second_phase_elim c shadows (some e) = before
  second_phase_elim c shadows none =
      finish_claim_elim (records shadows) c.pair_ordinal (grpc_phase prepared shadows)

  run_phases_elim :
      (c : Result (PrepareError E) Collected)
      → P (run_phases marshal unmarshal resolve created fetched prepared fault claim p c).plugin
  unfolding run_phases fail_with
  run_phases_elim (err e) = before
  run_phases_elim (ok c) =
      second_phase_elim c (shadows_of created fetched c.composition c.work)
        (first_error created fetched c.work)

  pub prepare_claim_elim :
      P (prepare_claim marshal unmarshal resolve created fetched prepared fault claim p).plugin
  unfolding prepare_claim
  prepare_claim_elim =
      run_phases_elim (
        allocated marshal unmarshal resolve created fetched prepared fault claim p claim.allocation)
