-- ===== src/Webhook/Mutator.antt =====
-- pkg/webhook/mutator.go: `Mutate`. `create` is the API's creation of a template, on a state of the
-- cluster.
pub mod Served
pub mod Sent
pub mod NoPanic
pub mod Applied
use composite_dra_driver.Prelude.{
  ℕ, zero, suc, ◌+◌, Bool, true, false, not, ◌&&◌, List, [], ◌∷◌, ◌++◌, Option, none, some, ℤ, pos,
  negsuc, lt_one, add_int64, GoString, codes, decimal, is_empty, str_eq, str_lt, truncate, GoMap,
  lookup, lookup_or, insert, keys, has, get_elem?, reverse, ◌==◌, if◌then◌else◌,
}
use composite_dra_driver.Prelude.Run.{Run, returns, panics, ◌>>=◌, deref}
use composite_dra_driver.Prelude.Result.{Result, ok, err}
use composite_dra_driver.Webhook.{
  ClaimRef, PodResourceClaim, Container, Pod, PatchOp, no_value, text, annotation_map, pod_claims,
  pod_claim, claim_refs, claim_ref,
}
use composite_dra_driver.Webhook.Escape.{json_patch_escape}
use composite_dra_driver.Webhook.ClaimBuilder.{ClaimSpec, pair_name, build_claim_spec}
use composite_dra_driver.Webhook.Requests.{
  ResourceMatch, CompositionRequest, group_matches, sort_strings, find_resource_requests,
}
use composite_dra_driver.Webhook.Patches.{mutated_annotation, ClaimInfo, build_patches}

-- `resourceapi.ResourceClaimTemplate`
pub record ClaimTemplate : Type 0 where
  pub name : GoString
  pub namespace : GoString
  pub labels : GoMap GoString
  pub spec : ClaimSpec

pub data CreateResult : Type 0 where
  created already_exists failed : CreateResult

pub data MutateError : Type 0 where
  create_claim_template : GoString → MutateError

-- `strings.TrimRight(s, "-")`, on the reversed text
drop_dashes : GoString → GoString
drop_dashes [] = []
drop_dashes (c ∷ s) = let rest = drop_dashes s in if c == b'-' then rest else c ∷ s

unfoldable pub pod_prefix : {Q : Type 0} → Pod Q → GoString
unfolding drop_dashes
pod_prefix pod =
    if is_empty pod.name then reverse (drop_dashes (reverse pod.generate_name)) else pod.name

unfoldable pub composition_template_name : GoString → GoString → GoString
composition_template_name pod_name device_class_name =
    truncate 63 (pod_name ++ (codes "-" ++ device_class_name))

module _ {ℓ} {State : Type ℓ} (max_len : ℕ)
    (create : ClaimTemplate → State → CreateResult × State) where
  claim_of : GoString → CompositionRequest → ClaimInfo
  claim_of template_name cr = record {
    template_name = template_name;
    resource_name = cr.resource_name;
    device_class_name = cr.device_class_name;
    pair_count = cr.total_count;
    container_idxs = cr.container_idxs;
  }

  -- what a template that is there, or now made, leads to
  unless_failed :
      CreateResult × State
      → GoString
      → (State → Run (Result MutateError (List ClaimInfo) × State))
      → Run (Result MutateError (List ClaimInfo) × State)
  unless_failed (created, s) template_name next = next s
  unless_failed (already_exists, s) template_name next = next s
  unless_failed (failed, s) template_name next =
      returns (err (create_claim_template template_name), s)

  with_claim :
      ClaimInfo
      → Result MutateError (List ClaimInfo) × State
      → Result MutateError (List ClaimInfo) × State
  with_claim claim (ok claims, s) = (ok (claim ∷ claims), s)
  with_claim claim (err e, s) = (err e, s)

  -- the loop over `compKeys`
  unfoldable pub create_claims :
      GoString
      → GoString
      → GoMap CompositionRequest
      → List GoString
      → State
      → Run (Result MutateError (List ClaimInfo) × State)
  unfolding claim_of unless_failed with_claim
  create_claims prefix namespace comp_map [] s = returns (ok [], s)
  create_claims prefix namespace comp_map (res_name ∷ names) s = do
    cr ← deref (lookup res_name comp_map)
    spec ← build_claim_spec max_len cr.device_class_name cr.total_count
    let name = composition_template_name prefix cr.device_class_name
    let template : ClaimTemplate = record {
      name = name;
      namespace = namespace;
      labels = (codes "app.kubernetes.io/managed-by", codes "composite-dra-webhook") ∷ [];
      spec = spec;
    }
    unless_failed (create template s) name λ s'. (do
      rest ← create_claims prefix namespace comp_map names s'
      returns (with_claim (claim_of name cr) rest))

  module _ {Q : Type 0} (as_int64 : Q → ℤ × Bool) (visit : ℕ → GoMap GoString → GoMap GoString)
      (mappings : GoMap GoString) where
    patches_for :
        Pod Q
        → List ResourceMatch
        → Result MutateError (List ClaimInfo) × State
        → Run (Result MutateError (Option (List PatchOp)) × State)
    patches_for pod matches (err e, s) = returns (err e, s)
    patches_for pod matches (ok claims, s) = do
      patches ← build_patches as_int64 pod matches claims
      returns (ok (some patches), s)

    mutate_matches :
        Pod Q
        → GoString
        → List ResourceMatch
        → State
        → Run (Result MutateError (Option (List PatchOp)) × State)
    unfolding patches_for create_claims group_matches sort_strings
    mutate_matches pod namespace [] s = returns (ok none, s)
    mutate_matches pod namespace (m ∷ ms) s =
        let comp_map = group_matches (m ∷ ms) [] in
        (do
          made ← create_claims (pod_prefix pod) namespace comp_map (sort_strings (keys comp_map)) s
          patches_for pod (m ∷ ms) made)

    is_mutated : Option (GoMap GoString) → Bool
    is_mutated none = false
    is_mutated (some annotations) =
        str_eq (lookup_or [] mutated_annotation annotations) (codes "true")

    unfoldable pub mutate :
        Pod Q → GoString → State → Run (Result MutateError (Option (List PatchOp)) × State)
    unfolding mutate_matches is_mutated
    mutate pod namespace s =
        if is_mutated pod.annotations
        then returns (ok none, s)
        else mutate_matches pod namespace (find_resource_requests as_int64 visit mappings pod) s
