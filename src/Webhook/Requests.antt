-- ===== src/Webhook/Requests.antt =====
-- pkg/webhook/mutator.go: which resources the containers request, and their composition requests.
-- `as_int64` is a quantity's `AsInt64`, and `visit i` the order in which `range` visits the resource
-- mappings for container `i`.
pub mod Demand
pub mod Requested
pub mod Complete
pub mod Sorted
use composite_dra_driver.Prelude.{
  ℕ, zero, suc, ◌+◌, Bool, true, false, not, ◌&&◌, List, [], ◌∷◌, ◌++◌, Option, none, some, ℤ, pos,
  negsuc, lt_one, add_int64, GoString, codes, decimal, is_empty, str_eq, str_lt, truncate, GoMap,
  lookup, lookup_or, insert, keys, has, get_elem?, reverse, ◌==◌, if◌then◌else◌,
}
use composite_dra_driver.Prelude.Run.{Run, returns, panics, ◌>>=◌, deref}
use composite_dra_driver.Prelude.Result.{Result, ok, err}
use composite_dra_driver.Webhook.{
  ClaimRef, PodResourceClaim, Container, Pod, PatchOp, no_value, text, annotation_map, pod_claims,
  pod_claim, claim_refs, claim_ref,
}
use composite_dra_driver.Webhook.Escape.{json_patch_escape}
use composite_dra_driver.Webhook.ClaimBuilder.{ClaimSpec, pair_name, build_claim_spec}

pub record ResourceMatch : Type 0 where
  pub resource_name : GoString
  pub device_class_name : GoString
  pub count : ℤ
  pub container_idx : ℕ

pub record CompositionRequest : Type 0 where
  pub resource_name : GoString
  pub device_class_name : GoString
  pub total_count : ℤ
  pub container_idxs : List ℕ

-- grouping the matches by resource name
add_match : ResourceMatch → CompositionRequest → CompositionRequest
add_match match_ cr = record cr {
  total_count = add_int64 cr.total_count match_.count;
  container_idxs = cr.container_idxs ++ match_.container_idx ∷ [];
}

new_request : ResourceMatch → CompositionRequest
new_request match_ = record {
  resource_name = match_.resource_name;
  device_class_name = match_.device_class_name;
  total_count = pos 0;
  container_idxs = [];
}

request_for : ResourceMatch → Option CompositionRequest → CompositionRequest
unfolding new_request
request_for match_ none = new_request match_
request_for match_ (some cr) = cr

unfoldable pub group_matches :
    List ResourceMatch → GoMap CompositionRequest → GoMap CompositionRequest
unfolding add_match request_for
group_matches [] comp_map = comp_map
group_matches (match_ ∷ matches) comp_map =
    let cr = request_for match_ (lookup match_.resource_name comp_map) in
    group_matches matches (insert match_.resource_name (add_match match_ cr) comp_map)

-- `sort.Strings`
insert_string : GoString → List GoString → List GoString
insert_string s [] = s ∷ []
insert_string s (t ∷ ts) =
    let rest = insert_string s ts in if str_lt t s then t ∷ rest else s ∷ t ∷ ts

unfoldable pub sort_strings : List GoString → List GoString
unfolding insert_string
sort_strings [] = []
sort_strings (s ∷ ss) = insert_string s (sort_strings ss)

module _ {Q : Type 0} (as_int64 : Q → ℤ × Bool) where
  -- the test of one resource of one container
  match_quantity : ℕ → GoString → GoString → Option Q → List ResourceMatch
  match_quantity i res_name dev_class none = []
  match_quantity i res_name dev_class (some qty) =
      let (count, fits) = as_int64 qty in
      if fits && not (lt_one count)
      then record {
        resource_name = res_name;
        device_class_name = dev_class;
        count = count;
        container_idx = i;
      }
        ∷ []
      else []

  -- the loop over the resource mappings
  match_container : ℕ → Container Q → GoMap GoString → List ResourceMatch
  unfolding match_quantity
  match_container i c [] = []
  match_container i c ((res_name, dev_class) ∷ mappings) =
      match_quantity i res_name dev_class (lookup res_name c.requests)
      ++ match_container i c mappings

  module _ (visit : ℕ → GoMap GoString → GoMap GoString) (mappings : GoMap GoString) where
    unfoldable pub match_containers : ℕ → List (Container Q) → List ResourceMatch
    unfolding match_container
    match_containers i [] = []
    match_containers i (c ∷ cs) =
        match_container i c (visit i mappings) ++ match_containers (suc i) cs

    unfoldable pub find_resource_requests : Pod Q → List ResourceMatch
    unfolding match_containers
    find_resource_requests pod = match_containers 0 pod.containers
