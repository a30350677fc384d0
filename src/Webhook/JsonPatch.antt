-- ===== src/Webhook/JsonPatch.antt =====
-- What RFC 6902 says of the patches that pkg/webhook makes, on the fields of a pod that the model has.
-- `none` is a patch that is refused: a path that leads nowhere, or a value of another kind.
pub mod Paths
pub mod Updates
pub mod Names
pub mod Reduced
pub mod Removed
pub mod Kept
pub mod Added
pub mod Applied
use composite_dra_driver.Prelude.{
  ℕ, zero, suc, Bool, true, false, ◌&&◌, List, [], ◌∷◌, ◌++◌, map, Option, none, some, GoString,
  codes, decimal, str_eq, split_slash, GoMap, lookup, insert, delete, length, if◌then◌else◌,
}
use composite_dra_driver.Webhook.{
  ClaimRef, PodResourceClaim, Container, Pod, PatchValue, PatchOp, text, annotation_map, pod_claims,
  pod_claim, claim_refs, claim_ref,
}
use composite_dra_driver.Webhook.Escape.{unescape}

-- the places of a pod that a path can name
pub data Location : Type 0 where
  annotations resource_claims resource_claims_end nowhere : Location
  annotation : GoString → Location
  request limit : GoString → GoString → Location
  container_claims container_claims_end : GoString → Location

-- RFC 6901: the reference tokens of a pointer
unfoldable pub tokens : GoString → List GoString
tokens path = map (unescape false) (split_slash path)

of_annotations : List GoString → Location
of_annotations [] = annotations
of_annotations (k ∷ []) = annotation k
of_annotations (k ∷ j ∷ rest) = nowhere

of_pod_claims : List GoString → Location
of_pod_claims [] = resource_claims
of_pod_claims (t ∷ []) = if str_eq t (codes "-") then resource_claims_end else nowhere
of_pod_claims (t ∷ u ∷ rest) = nowhere

of_claims : GoString → List GoString → Location
of_claims i [] = container_claims i
of_claims i (t ∷ []) = if str_eq t (codes "-") then container_claims_end i else nowhere
of_claims i (t ∷ u ∷ rest) = nowhere

of_key : (GoString → Location) → List GoString → Location
of_key place (k ∷ []) = place k
of_key place rest = nowhere

of_container : List GoString → Location
unfolding of_claims of_key
of_container (i ∷ r ∷ field ∷ rest) =
    if str_eq r (codes "resources")
    then if str_eq field (codes "requests")
      then of_key (request i) rest
      else if str_eq field (codes "limits")
      then of_key (limit i) rest
      else if str_eq field (codes "claims")
      then of_claims i rest
      else nowhere
    else nowhere
of_container rest = nowhere

unfoldable pub locate : List GoString → Location
unfolding of_annotations of_pod_claims of_container
locate (root ∷ a ∷ b ∷ rest) =
    if str_eq a (codes "metadata")
    then if str_eq b (codes "annotations") then of_annotations rest else nowhere
    else if str_eq a (codes "spec")
    then if str_eq b (codes "resourceClaims")
      then of_pod_claims rest
      else if str_eq b (codes "containers")
      then of_container rest
      else nowhere
    else nowhere
locate rest = nowhere

-- the index that a token stands for, of a list of `n`
unfoldable pub index_in : GoString → ℕ → Option ℕ
index_in token zero = none
index_in token (suc j) = if str_eq (decimal j) token then some j else index_in token j

module _ {ℓ} {A : Type ℓ} where
  cons_some : A → Option (List A) → Option (List A)
  cons_some x none = none
  cons_some x (some xs) = some (x ∷ xs)

  some_cons : Option A → List A → Option (List A)
  some_cons none xs = none
  some_cons (some x) xs = some (x ∷ xs)

  -- the item at an index, changed
  unfoldable pub update_at : ℕ → (A → Option A) → List A → Option (List A)
  unfolding cons_some some_cons
  update_at i f [] = none
  update_at zero f (x ∷ xs) = some_cons (f x) xs
  update_at (suc i) f (x ∷ xs) = cons_some x (update_at i f xs)

-- a key that has to be there, removed
unfoldable pub remove_key {ℓ} : {V : Type ℓ} → GoString → GoMap V → Option (GoMap V)
remove_key k m = elim (lookup k m) [ none ↦ none | some v ↦ some (delete k m) ]

module _ {Q : Type 0} where
  with_containers : Pod Q → Option (List (Container Q)) → Option (Pod Q)
  with_containers pod none = none
  with_containers pod (some cs) = some (record pod { containers = cs })

  at_index : Pod Q → Option ℕ → (Container Q → Option (Container Q)) → Option (Pod Q)
  unfolding with_containers
  at_index pod none f = none
  at_index pod (some i) f = with_containers pod (update_at i f pod.containers)

  -- a container that a token names, changed
  unfoldable pub in_container :
      GoString → (Container Q → Option (Container Q)) → Pod Q → Option (Pod Q)
  unfolding at_index
  in_container token f pod = at_index pod (index_in token (length pod.containers)) f

  set_requests : Container Q → Option (GoMap Q) → Option (Container Q)
  set_requests c none = none
  set_requests c (some m) = some (record c { requests = m })

  set_limits : Container Q → Option (GoMap Q) → Option (Container Q)
  set_limits c none = none
  set_limits c (some m) = some (record c { limits = m })

  unfoldable pub remove_request : GoString → Container Q → Option (Container Q)
  unfolding set_requests
  remove_request k c = set_requests c (remove_key k c.requests)

  unfoldable pub remove_limit : GoString → Container Q → Option (Container Q)
  unfolding set_limits
  remove_limit k c = set_limits c (remove_key k c.limits)

  unfoldable pub remove_at : Location → Pod Q → Option (Pod Q)
  remove_at (request i k) pod = in_container i (remove_request k) pod
  remove_at (limit i k) pod = in_container i (remove_limit k) pod
  remove_at place pod = none

  set_annotation : GoString → GoString → Pod Q → Option (GoMap GoString) → Option (Pod Q)
  set_annotation k t pod none = none
  set_annotation k t pod (some m) = some (record pod { annotations = some (insert k t m) })

  append_pod_claim : PodResourceClaim → Pod Q → Option (List PodResourceClaim) → Option (Pod Q)
  append_pod_claim c pod none = none
  append_pod_claim c pod (some cs) = some (record pod { resource_claims = some (cs ++ c ∷ []) })

  append_ref : ClaimRef → Container Q → Option (List ClaimRef) → Option (Container Q)
  append_ref r c none = none
  append_ref r c (some rs) = some (record c { claims = some (rs ++ r ∷ []) })

  unfoldable pub add_ref : ClaimRef → Container Q → Option (Container Q)
  unfolding append_ref
  add_ref r c = append_ref r c c.claims

  -- a member that is there is replaced, and `-` is the end of a list that is there
  unfoldable pub add_at : Location → PatchValue → Pod Q → Option (Pod Q)
  unfolding set_annotation append_pod_claim
  add_at annotations (annotation_map m) pod = some (record pod { annotations = some m })
  add_at (annotation k) (text t) pod = set_annotation k t pod pod.annotations
  add_at resource_claims (pod_claims cs) pod = some (record pod { resource_claims = some cs })
  add_at resource_claims_end (pod_claim c) pod = append_pod_claim c pod pod.resource_claims
  add_at (container_claims i) (claim_refs rs) pod =
      in_container i (λ c. some (record c { claims = some rs })) pod
  add_at (container_claims_end i) (claim_ref r) pod = in_container i (add_ref r) pod
  add_at place value pod = none

  unfoldable pub apply_op : PatchOp → Pod Q → Option (Pod Q)
  apply_op o pod =
      if str_eq o.op (codes "add")
      then add_at (locate (tokens o.path)) o.value pod
      else if str_eq o.op (codes "remove")
      then remove_at (locate (tokens o.path)) pod
      else none

  -- the operations, one after the other
  unfoldable pub apply_all : List PatchOp → Pod Q → Option (Pod Q)
  apply_all [] pod = some pod
  apply_all (o ∷ os) pod = elim (apply_op o pod) [ none ↦ none | some pod' ↦ apply_all os pod' ]
