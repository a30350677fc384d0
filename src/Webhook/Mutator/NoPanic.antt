-- ===== src/Webhook/Mutator/NoPanic.antt =====
-- `Mutate` does not panic.
use composite_dra_driver.Prelude.{
  ℕ, ◌<◌, ◌≤◌, ltb, false, ◌≡◌, ap, ◌∙◌, arith, Bool, List, [], ◌∷◌, some, ℤ, pos, int64_small,
  two_63, GoString, GoMap, lookup, keys, get_elem?, All, All-lookup, Bool-cases, inl, inr,
}
use composite_dra_driver.Prelude.Run.{Run, Returns, Returns-bind, IfReturns-Returns}
use composite_dra_driver.Prelude.Result.{Result, ok, err}
use composite_dra_driver.Webhook.{Pod}
use composite_dra_driver.Webhook.ClaimBuilder.{build_claim_spec}
use composite_dra_driver.Webhook.Requests.{
  ResourceMatch, CompositionRequest, group_matches, sort_strings, match_containers,
  find_resource_requests,
}
use composite_dra_driver.Webhook.Requests.Demand.{
  demand, IsMatch, IsFairEntry, match_containers-AllMatch, group_matches-AllFair,
}
use composite_dra_driver.Webhook.Patches.{ClaimInfo, build_patches}
use composite_dra_driver.Webhook.Mutator.{
  ClaimTemplate, CreateResult, created, already_exists, failed, MutateError, unless_failed,
  create_claims, patches_for, mutate_matches, is_mutated, mutate, pod_prefix,
  composition_template_name,
}
use composite_dra_driver.Webhook.Mutator.Served.{Good, AllServed, create_claims-Good}
use composite_dra_driver.Webhook.Requests.Sorted.{sort_strings-All, keys-found}
use composite_dra_driver.Webhook.Patches.NoPanic.{build_patches-Returns}

module _ {Q : Type 0} (as_int64 : Q → ℤ × Bool) (pod : Pod Q) where
  -- the containers of a composition request fewer than 2^63 in all, and not more than `make` takes
  abbrev pub IsSmall : ℕ → GoString × CompositionRequest → Type 0
  IsSmall max_len (k, cr) =
      (demand as_int64 pod k cr.container_idxs < two_63)
      × (demand as_int64 pod k cr.container_idxs ≤ max_len)

  module _ {ℓ} {State : Type ℓ} (max_len : ℕ)
      (create : ClaimTemplate → State → CreateResult × State) where
    unless_failed-Returns :
        (made : CreateResult × State) (name : GoString)
        (next : State → Run (Result MutateError (List ClaimInfo) × State))
        → ((s : State) → Returns (λ _. Unit) (next s))
        → Returns (λ _. Unit) (unless_failed max_len create made name next)
    unfolding unless_failed
    unless_failed-Returns (created, s) name next h = h s
    unless_failed-Returns (already_exists, s) name next h = h s
    unless_failed-Returns (failed, s) name next h = tt

    build_claim_spec-Returns :
        (k : GoString) (cr : CompositionRequest)
        → IsFairEntry as_int64 pod (k, cr)
        → IsSmall max_len (k, cr)
        → Returns (λ _. Unit) (build_claim_spec max_len cr.device_class_name cr.total_count)
    unfolding build_claim_spec
    build_claim_spec-Returns k cr (named, (total, all)) (small, fits) =
        let exact : cr.total_count ≡ pos (demand as_int64 pod k cr.container_idxs) =
          total ∙ int64_small (demand as_int64 pod k cr.container_idxs) small in
        let enough : ltb max_len (demand as_int64 pod k cr.container_idxs) ≡ false = ground arith in
        rw (exact, enough) tt

    create_claims-Returns :
        (prefix namespace : GoString) (comp_map : GoMap CompositionRequest) (names : List GoString)
        (s : State)
        → All (IsFairEntry as_int64 pod) comp_map
        → All (IsSmall max_len) comp_map
        → All (λ k. (cr : CompositionRequest) × (lookup k comp_map ≡ some cr)) names
        → Returns (λ _. Unit) (create_claims max_len create prefix namespace comp_map names s)
    unfolding create_claims
    create_claims-Returns prefix namespace comp_map [] s fair small h = tt
    create_claims-Returns prefix namespace comp_map (k ∷ names) s fair small ((cr, e), h) =
        let name = composition_template_name prefix cr.device_class_name in
        rw (e, create_claims)
          (Returns-bind (λ _. Unit) (λ _. Unit)
            (build_claim_spec max_len cr.device_class_name cr.total_count) _
            (build_claim_spec-Returns k cr
              (All-lookup (IsFairEntry as_int64 pod) k comp_map cr fair e)
              (All-lookup (IsSmall max_len) k comp_map cr small e))
            λ spec _. unless_failed-Returns (create _ s) _ _ λ s'.
              Returns-bind (λ _. Unit) (λ _. Unit)
                (create_claims max_len create prefix namespace comp_map names s') _
                (create_claims-Returns prefix namespace comp_map names s' fair small h)
                (λ rest _. tt))

    module _ (visit : ℕ → GoMap GoString → GoMap GoString) (mappings : GoMap GoString) where
      patches_for-Returns :
          (matches : List ResourceMatch) (r : Result MutateError (List ClaimInfo) × State)
          → All (IsMatch as_int64 pod) matches
          → Good as_int64 pod max_len create r
          → Returns (λ _. Unit) (patches_for max_len create as_int64 visit mappings pod matches r)
      unfolding patches_for Good AllServed
      patches_for-Returns matches (err e, s) m g = tt
      patches_for-Returns matches (ok claims, s) m g =
          Returns-bind (λ _. Unit) (λ _. Unit) (build_patches as_int64 pod matches claims) _
            (build_patches-Returns as_int64 pod matches claims m g) (λ patches _. tt)

      mutate_matches-Returns :
          (namespace : GoString) (matches : List ResourceMatch) (s : State)
          → All (IsMatch as_int64 pod) matches
          → All (IsSmall max_len) (group_matches matches [])
          → Returns
              (λ _. Unit)
              (mutate_matches max_len create as_int64 visit mappings pod namespace matches s)
      unfolding mutate_matches
      mutate_matches-Returns namespace [] s m small = tt
      mutate_matches-Returns namespace (x ∷ xs) s m small =
          let comp_map = group_matches (x ∷ xs) [] in
          let names = sort_strings (keys comp_map) in
          let fair = group_matches-AllFair as_int64 pod (x ∷ xs) [] m tt in
          let made = create_claims max_len create (pod_prefix pod) namespace comp_map names s in
          Returns-bind (Good as_int64 pod max_len create) (λ _. Unit) made _
            (IfReturns-Returns (Good as_int64 pod max_len create) made
              (create_claims-Good as_int64 pod max_len create (pod_prefix pod) namespace comp_map
                names s fair)
              (create_claims-Returns (pod_prefix pod) namespace comp_map names s fair small
                (sort_strings-All _ (keys comp_map) (keys-found comp_map))))
            λ r g. patches_for-Returns (x ∷ xs) r m g

      pub mutate-Returns :
          (namespace : GoString) (s : State)
          → All
              (IsSmall max_len)
              (group_matches (find_resource_requests as_int64 visit mappings pod) [])
          → Returns (λ _. Unit) (mutate max_len create as_int64 visit mappings pod namespace s)
      unfolding mutate find_resource_requests
      mutate-Returns namespace s small =
          elim (Bool-cases (is_mutated max_len create as_int64 visit mappings pod.annotations)) [
            | inl e ↦ rw e tt
            | inr e ↦ rw e (
                mutate_matches-Returns namespace
                  (match_containers as_int64 visit mappings 0 pod.containers) s
                  (match_containers-AllMatch as_int64 pod visit mappings 0 pod.containers
                    λ j. ap (get_elem? pod.containers) (omega arith))
                  small)
          ]
