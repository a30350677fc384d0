-- ===== src/Webhook/Mutator/Sent.antt =====
-- The templates that the webhook sends, and the references of the containers to their requests.
use composite_dra_driver.Prelude.{
  ◌<◌, codes, ◌≡◌, Bool, List, [], ◌∷◌, ◌++◌, map, ℤ, two_63, GoString, All,
}
use composite_dra_driver.Prelude.Run.{Run, Returns}
use composite_dra_driver.Prelude.Result.{Result}
use composite_dra_driver.Webhook.{ClaimRef, Pod}
use composite_dra_driver.Webhook.ClaimBuilder.{ClaimSpec, DeviceRequest}
use composite_dra_driver.Webhook.Patches.{ClaimInfo, container_refs, claim_name_of}
use composite_dra_driver.Webhook.Mutator.{ClaimTemplate, CreateResult}
use composite_dra_driver.Webhook.Requests.Demand.{demand}
use composite_dra_driver.Webhook.Mutator.Served.{all_refs}

-- the references ask for the requests of the claim's template, in their order
abbrev pub AsksFor : List ClaimRef → ClaimSpec → Type 0
AsksFor refs spec =
    map (λ (r : ClaimRef). r.request) refs ≡ map (λ (r : DeviceRequest). r.name) spec.requests

-- an API server that also keeps the templates that it is asked to create, in their order
abbrev pub recording {ℓ} :
    {State : Type ℓ}
    → (ClaimTemplate → State → CreateResult × State)
    → ClaimTemplate
    → List ClaimTemplate × State
    → CreateResult × (List ClaimTemplate × State)
recording create template s =
    let answer = create template s.1 in (answer.0, (s.0 ++ template ∷ [], answer.1))

module _ {Q : Type 0} (as_int64 : Q → ℤ × Bool) (pod : Pod Q) (namespace : GoString) where
  -- The template is the claim's: it has the name that the pod's claim refers to, in the namespace,
  -- and its requests, each for one device of the claim's class, are those that the containers'
  -- references name, each once and in their order.
  pub record IsFor (claim : ClaimInfo) (template : ClaimTemplate) : Type 0 where
    pub named : template.name ≡ claim.template_name
    pub placed : template.namespace ≡ namespace
    pub one :
        All
          (λ (r : DeviceRequest).
            (r.device_class_name ≡ claim.device_class_name)
            × (r.allocation_mode ≡ codes "ExactCount")
            × (r.count ≡ 1))
          template.spec.requests
    pub asked :
        Returns
          (λ refs. AsksFor (all_refs as_int64 pod refs) template.spec)
          (container_refs as_int64 pod
            (claim_name_of claim.device_class_name)
            claim.resource_name
            0
            claim.container_idxs)

  abbrev pub AreFor : List ClaimInfo → List ClaimTemplate → Type 0
  AreFor [] [] = Unit
  AreFor [] (t ∷ ts) = ⊥
  AreFor (c ∷ cs) [] = ⊥
  AreFor (c ∷ cs) (t ∷ ts) = IsFor c t × AreFor cs ts

  -- the containers of the claim request fewer than 2^63 of its resource
  abbrev pub IsSmallClaim : ClaimInfo → Type 0
  IsSmallClaim claim = demand as_int64 pod claim.resource_name claim.container_idxs < two_63
