-- ===== src/Webhook/Patches/NoPanic.antt =====
-- `buildPatches` does not panic.
use composite_dra_driver.Prelude.{
  ℕ, suc, Bool, List, [], ◌∷◌, ◌++◌, ℤ, GoString, has, codes, decimal, All, Bool-cases, inl, inr,
}
use composite_dra_driver.Prelude.Run.{Returns, Returns-bind, Returns-mono}
use composite_dra_driver.Webhook.{Pod}
use composite_dra_driver.Webhook.Requests.{ResourceMatch}
use composite_dra_driver.Webhook.Requests.Demand.{IsMatch}
use composite_dra_driver.Webhook.Patches.{
  ClaimInfo, remove_ops, claim_ops, container_refs, build_patches, claim_name_of,
}
use composite_dra_driver.Webhook.Mutator.Served.{IsServed, container_refs_lem}

module _ {Q : Type 0} (as_int64 : Q → ℤ × Bool) (pod : Pod Q) where
  remove_ops-Returns :
      (ms : List ResourceMatch) (removed : List GoString)
      → All (IsMatch as_int64 pod) ms
      → Returns (λ _. Unit) (remove_ops as_int64 pod ms removed)
  unfolding remove_ops
  remove_ops-Returns [] removed h = tt
  remove_ops-Returns (m ∷ ms) removed (((c, at_), counts), h) =
      let name = decimal m.container_idx ++ (codes "/" ++ m.resource_name) in
      elim (Bool-cases (has name removed)) [
        | inl e ↦ rw (e, remove_ops) (remove_ops-Returns ms removed h)
        | inr e ↦
            rw (e, remove_ops)
              (rw (at_, remove_ops)
                (Returns-bind (λ _. Unit) (λ _. Unit) (remove_ops as_int64 pod ms (name ∷ removed))
                  _ (remove_ops-Returns ms (name ∷ removed) h) (λ rest _. tt)))
      ]

  claim_ops-Returns :
      (i : ℕ) (claims : List ClaimInfo)
      → All (IsServed as_int64 pod) claims
      → Returns (λ _. Unit) (claim_ops as_int64 pod i claims)
  unfolding claim_ops
  claim_ops-Returns i [] h = tt
  claim_ops-Returns i (claim ∷ claims) ((total, all), h) =
      let name = claim_name_of claim.device_class_name in
      Returns-bind (λ _. Unit) (λ _. Unit)
        (container_refs as_int64 pod name claim.resource_name 0 claim.container_idxs) _
        (Returns-mono _ (λ _. Unit)
          (container_refs as_int64 pod name claim.resource_name 0 claim.container_idxs)
          (λ refs q. tt)
          (container_refs_lem as_int64 pod name claim.resource_name 0 claim.container_idxs all))
        λ refs _.
          Returns-bind (λ _. Unit) (λ _. Unit) (claim_ops as_int64 pod (suc i) claims) _
            (claim_ops-Returns (suc i) claims h) (λ rest _. tt)

  pub build_patches-Returns :
      (matches : List ResourceMatch) (claims : List ClaimInfo)
      → All (IsMatch as_int64 pod) matches
      → All (IsServed as_int64 pod) claims
      → Returns (λ _. Unit) (build_patches as_int64 pod matches claims)
  unfolding build_patches
  build_patches-Returns matches claims m c =
      Returns-bind (λ _. Unit) (λ _. Unit) (remove_ops as_int64 pod matches []) _
        (remove_ops-Returns matches [] m)
        λ removes _.
          Returns-bind (λ _. Unit) (λ _. Unit) (claim_ops as_int64 pod 0 claims) _
            (claim_ops-Returns 0 claims c) (λ adds _. tt)
