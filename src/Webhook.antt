-- ===== src/Webhook.antt =====
-- pkg/webhook: what the webhook reads of a pod (k8s.io/api/core/v1) and what it makes. A `nil` map or
-- slice, where the code asks for it, is `none`.
pub mod Escape
pub mod ClaimBuilder
pub mod Requests
pub mod Patches
pub mod Mutator
pub mod JsonPatch
pub mod Handler
pub mod Reconciler
use composite_dra_driver.Prelude.{ℕ, List, Option, ℤ, GoString, GoMap}

-- `corev1.ResourceClaim`: one request of a claim of the pod
pub record ClaimRef : Type 0 where
  pub name : GoString
  pub request : GoString

-- `corev1.PodResourceClaim`
pub record PodResourceClaim : Type 0 where
  pub name : GoString
  pub resource_claim_template_name : Option GoString

-- `corev1.Container`, over the type of quantities
pub record Container (Quantity : Type 0) : Type 0 where
  pub requests : GoMap Quantity
  pub limits : GoMap Quantity
  pub claims : Option (List ClaimRef)

pub record Pod (Quantity : Type 0) : Type 0 where
  pub name : GoString
  pub generate_name : GoString
  pub namespace : GoString
  pub annotations : Option (GoMap GoString)
  pub containers : List (Container Quantity)
  pub resource_claims : Option (List PodResourceClaim)

-- the values of patch operations
pub data PatchValue : Type 0 where
  no_value : PatchValue
  text : GoString → PatchValue
  annotation_map : GoMap GoString → PatchValue
  pod_claims : List PodResourceClaim → PatchValue
  pod_claim : PodResourceClaim → PatchValue
  claim_refs : List ClaimRef → PatchValue
  claim_ref : ClaimRef → PatchValue

pub record PatchOp : Type 0 where
  pub op : GoString
  pub path : GoString
  pub value : PatchValue
