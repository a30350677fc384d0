-- ===== src/Webhook/Patches.antt =====
-- pkg/webhook/mutator.go: `buildPatches`.
pub mod NoPanic
use composite_dra_driver.Prelude.{
  ℕ, zero, suc, ◌+◌, Bool, true, false, List, [], ◌∷◌, ◌++◌, Option, none, some, ℤ, pos, negsuc,
  GoString, codes, decimal, truncate, GoMap, lookup, has, get_elem?,
}
use composite_dra_driver.Prelude.Run.{Run, returns, ◌>>=◌, deref}
use composite_dra_driver.Webhook.{
  ClaimRef, PodResourceClaim, Container, Pod, PatchOp, no_value, text, annotation_map, pod_claims,
  pod_claim, claim_refs, claim_ref,
}
use composite_dra_driver.Webhook.Escape.{json_patch_escape}
use composite_dra_driver.Webhook.ClaimBuilder.{pair_name}
use composite_dra_driver.Webhook.Requests.{ResourceMatch}

abbrev pub mutated_annotation : GoString
mutated_annotation = codes "composite.dra/mutated"

pub record ClaimInfo : Type 0 where
  pub template_name : GoString
  pub resource_name : GoString
  pub device_class_name : GoString
  pub pair_count : ℤ
  pub container_idxs : List ℕ

-- `composite.dra~1mutated` is the annotation's name, escaped.
unfoldable pub annotation_patch : Option (GoMap GoString) → PatchOp
annotation_patch none = record {
  op = codes "add";
  path = codes "/metadata/annotations";
  value = annotation_map ((mutated_annotation, codes "true") ∷ []);
}
annotation_patch (some annotations) = record {
  op = codes "add";
  path = codes "/metadata/annotations/composite.dra~1mutated";
  value = text (codes "true");
}

unfoldable pub container_path : ℕ → GoString → GoString
container_path i rest = codes "/spec/containers/" ++ (decimal i ++ (codes "/resources/" ++ rest))

unfoldable pub remove_op : GoString → PatchOp
remove_op path = record { op = codes "remove"; path = path; value = no_value }

unfoldable pub claim_name_of : GoString → GoString
claim_name_of device_class_name = truncate 63 (codes "composite-" ++ device_class_name)

-- the first claim of a pod that has none makes the list
unfoldable pub pod_claim_patch : ℕ → Option (List PodResourceClaim) → PodResourceClaim → PatchOp
pod_claim_patch zero none ref = record {
  op = codes "add";
  path = codes "/spec/resourceClaims";
  value = pod_claims (ref ∷ []);
}
pod_claim_patch (suc i) none ref = record {
  op = codes "add";
  path = codes "/spec/resourceClaims/-";
  value = pod_claim ref;
}
pod_claim_patch i (some claims) ref = record {
  op = codes "add";
  path = codes "/spec/resourceClaims/-";
  value = pod_claim ref;
}

-- the loop on `j`, from the running `pairIdx`
unfoldable pub refs_from : GoString → ℕ → ℕ → List ClaimRef
refs_from claim_name pair_idx zero = []
refs_from claim_name pair_idx (suc n) =
    record { name = claim_name; request = pair_name pair_idx }
    ∷ refs_from claim_name (suc pair_idx) n

-- the number of rounds of a loop up to `int(count)`
abbrev pub rounds : ℤ → ℕ
rounds (pos n) = n
rounds (negsuc n) = 0

unfoldable pub append_ops : ℕ → List ClaimRef → List PatchOp
append_ops i [] = []
append_ops i (ref ∷ refs) =
    record { op = codes "add"; path = container_path i (codes "claims/-"); value = claim_ref ref }
    ∷ append_ops i refs

unfoldable pub container_ops : ℕ → Option (List ClaimRef) → List ClaimRef → List PatchOp
unfolding append_ops
container_ops i none refs =
    record { op = codes "add"; path = container_path i (codes "claims"); value = claim_refs refs }
    ∷ []
container_ops i (some claims) refs = append_ops i refs

module _ {Q : Type 0} (as_int64 : Q → ℤ × Bool) (pod : Pod Q) where
  -- a missing request reads as the zero quantity
  unfoldable pub quantity_count : Option Q → ℕ
  quantity_count none = 0
  quantity_count (some qty) = rounds (as_int64 qty).0

  unfoldable pub request_count : GoString → Container Q → ℕ
  unfolding quantity_count
  request_count res_name c = quantity_count (lookup res_name c.requests)

  -- the operations on requests and limits
  unfoldable pub limit_ops : ℕ → GoString → Option Q → List PatchOp
  limit_ops i escaped none = []
  limit_ops i escaped (some qty) = remove_op (container_path i (codes "limits/" ++ escaped)) ∷ []

  unfoldable pub remove_ops : List ResourceMatch → List GoString → Run (List PatchOp)
  unfolding limit_ops remove_op
  remove_ops [] removed = returns []
  remove_ops (m ∷ ms) removed =
      let name = decimal m.container_idx ++ (codes "/" ++ m.resource_name) in
      let escaped = json_patch_escape m.resource_name in
      elim (has name removed) [
        | true ↦ remove_ops ms removed
        | false ↦ (do
          c ← deref (get_elem? pod.containers m.container_idx)
          rest ← remove_ops ms (name ∷ removed)
          returns (
              remove_op (container_path m.container_idx (codes "requests/" ++ escaped))
              ∷ (limit_ops m.container_idx escaped (lookup m.resource_name c.limits) ++ rest)))
      ]

  -- the references of one claim in each of its containers
  unfoldable pub container_refs :
      GoString → GoString → ℕ → List ℕ → Run (List (ℕ × (Container Q × List ClaimRef)))
  unfolding request_count refs_from
  container_refs claim_name res_name pair_idx [] = returns []
  container_refs claim_name res_name pair_idx (i ∷ is) = do
    c ← deref (get_elem? pod.containers i)
    rest ← container_refs claim_name res_name (pair_idx + request_count res_name c) is
    returns ((i, (c, refs_from claim_name pair_idx (request_count res_name c))) ∷ rest)

  unfoldable pub refs_ops : List (ℕ × (Container Q × List ClaimRef)) → List PatchOp
  unfolding container_ops
  refs_ops [] = []
  refs_ops ((i, (c, refs)) ∷ rest) = container_ops i c.claims refs ++ refs_ops rest

  unfoldable pub claim_ops : ℕ → List ClaimInfo → Run (List PatchOp)
  unfolding pod_claim_patch container_refs refs_ops claim_name_of
  claim_ops i [] = returns []
  claim_ops i (claim ∷ claims) =
      let claim_name = claim_name_of claim.device_class_name in
      (do
        refs ← container_refs claim_name claim.resource_name 0 claim.container_idxs
        rest ← claim_ops (suc i) claims
        returns (
            pod_claim_patch i pod.resource_claims (record {
              name = claim_name;
              resource_claim_template_name = some claim.template_name;
            })
            ∷ (refs_ops refs ++ rest)))

  unfoldable pub build_patches : List ResourceMatch → List ClaimInfo → Run (List PatchOp)
  unfolding annotation_patch remove_ops claim_ops
  build_patches matches claims = do
    removes ← remove_ops matches []
    adds ← claim_ops 0 claims
    returns (annotation_patch pod.annotations ∷ (removes ++ adds))
