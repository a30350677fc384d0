-- ===== src/Plugin/Orphans.antt =====
-- pkg/plugin/reconciler.go: `reconcileOrphans` and `StartReconciler`. `get` and `list` are the API
-- server's answers, `list` for a label selector. The result is the list of the claims that it deletes.
pub mod Created
pub mod Collected
use composite_dra_driver.Prelude.{
  Bool, true, false, List, [], ◌∷◌, ◌++◌, GoString, is_empty, str_eq, codes, Signal, on_ticks,
  GoMap, lookup_or,
}
use composite_dra_driver.Prelude.Result.{Result, ok, err}
use composite_dra_driver.Plugin.{ResourceClaim}
use composite_dra_driver.Shadow.Claims.{ShadowClaim, OwnerReference}

module _ {ℓ} {E : Type ℓ} (get : GoString → GoString → Result E ResourceClaim) where
  -- the loop over the owner references, which ends at the first one with the UID; any error of `Get`
  -- leaves `ownerExists` false
  unfoldable pub owner_exists : GoString → GoString → List OwnerReference → Bool
  owner_exists namespace uid [] = false
  owner_exists namespace uid (ref ∷ refs) = elim (str_eq ref.uid uid) [
    | true ↦ elim (get namespace ref.name) [ ok owner ↦ true | err e ↦ false ]
    | false ↦ owner_exists namespace uid refs
  ]

  unfoldable pub is_orphan : ShadowClaim → GoString → Bool
  unfolding owner_exists
  is_orphan shadow composite_uid = elim (is_empty composite_uid) [
    | true ↦ false
    | false ↦ elim (owner_exists shadow.namespace composite_uid shadow.owner_references) [
      | true ↦ false
      | false ↦ true
    ]
  ]

  -- the loop over the listed claims
  unfoldable pub orphans : List ShadowClaim → List (GoString × GoString)
  unfolding is_orphan
  orphans [] = []
  orphans (shadow ∷ shadows) =
      elim (is_orphan shadow (lookup_or [] (codes "composite-claim-uid") shadow.labels)) [
        | true ↦ (shadow.namespace, shadow.name) ∷ orphans shadows
        | false ↦ orphans shadows
      ]

  of_listed : Result E (List ShadowClaim) → List (GoString × GoString)
  unfolding orphans
  of_listed (err e) = []
  of_listed (ok shadows) = orphans shadows

  unfoldable pub reconcile_orphans :
      (GoString → Result E (List ShadowClaim)) → GoString → List (GoString × GoString)
  unfolding of_listed
  reconcile_orphans list driver_name =
      of_listed (list (codes "app.kubernetes.io/managed-by=" ++ driver_name))

-- `StartReconciler`: `reconcile` on the state of the cluster
unfoldable pub start_reconciler {ℓ} :
    {State : Type ℓ} → (State → State) → List Signal → State → State
unfolding on_ticks
start_reconciler reconcile signals s = on_ticks reconcile signals s
