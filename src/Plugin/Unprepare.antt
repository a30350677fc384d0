-- ===== src/Plugin/Unprepare.antt =====
-- pkg/plugin/plugin.go: `unprepareClaim` and `cleanupShadows`. `answer` is the error of each call,
-- if any.
pub mod Retry
use composite_dra_driver.Prelude.{
  List, [], ◌∷◌, ◌++◌, Option, none, some, GoString, lookup_or, delete, GoMap, insert,
}
use composite_dra_driver.Prelude.Result.{Result, ok, err}
use composite_dra_driver.Plugin.{
  ShadowRecord, CompositePlugin, Call, unprepare_via_grpc, delete_claim, delete_for_composite,
}
use composite_dra_driver.Plugin.State.{delete_shadow_state}

-- `kubeletplugin.NamespacedObject`
pub record NamespacedObject : Type 0 where
  pub namespace : GoString
  pub name : GoString
  pub uid : GoString

unfoldable pub undo_calls : List ShadowRecord → List Call
undo_calls [] = []
undo_calls (sr ∷ srs) =
    unprepare_via_grpc sr.driver_name sr.info
    ∷ delete_claim sr.info.namespace sr.info.name
    ∷ undo_calls srs

unfoldable pub cleanup_shadows : List ShadowRecord → List Call
unfolding undo_calls
cleanup_shadows shadows = undo_calls shadows

module _ {ℓ} {E : Type ℓ} (answer : Call → Option E) where
  failure : Option E → List E → List E
  failure none errs = errs
  failure (some e) errs = e ∷ errs

  -- the errors of the calls, in their order
  pub errors : List Call → List E
  unfolding failure
  errors [] = []
  errors (c ∷ cs) = failure (answer c) (errors cs)

  pub report : List E → Result (List E) (Unit {0})
  report [] = ok tt
  report (e ∷ es) = err (e ∷ es)

  -- the claims that carry the composite claim's label are deleted where no record is known
  orphan_calls : NamespacedObject → List ShadowRecord → List Call
  orphan_calls claim [] = delete_for_composite claim.namespace claim.uid ∷ []
  orphan_calls claim (sr ∷ srs) = []

  -- the result, the calls, and the plugin afterwards
  unfoldable pub unprepare_claim :
      Option E
      → NamespacedObject
      → CompositePlugin
      → (Result (List E) (Unit {0}) × List Call) × CompositePlugin
  unfolding errors report orphan_calls
  unprepare_claim fault claim p =
      let shadows = lookup_or [] claim.uid p.shadow_claims in
      (
        (report (errors (undo_calls shadows)), undo_calls shadows ++ orphan_calls claim shadows),
        record p {
          shadow_claims = delete claim.uid p.shadow_claims;
          state = delete_shadow_state fault claim.uid p.state;
        },
      )

-- the requests for several claims, one after the other: their results by UID, and their calls
unfoldable pub unprepare_resource_claims {ℓ} :
    {E : Type ℓ}
    → (Call → Option E)
    → (NamespacedObject → Option E)
    → List NamespacedObject
    → CompositePlugin
    → GoMap (Result (List E) (Unit {0}))
    → (GoMap (Result (List E) (Unit {0})) × List Call) × CompositePlugin
unprepare_resource_claims answer fault [] p results = ((results, []), p)
unprepare_resource_claims answer fault (claim ∷ claims) p results =
    let ((result, calls), p') = unprepare_claim answer (fault claim) claim p in
    let ((all, more), p'') =
      unprepare_resource_claims answer fault claims p' (insert claim.uid result results) in
    ((all, calls ++ more), p'')
