-- ===== src/Plugin/Orphans/Created.antt =====
-- What the reconciler does with the claims that the claim manager creates.
use composite_dra_driver.Prelude.{Bool, true, false, List, [], ◌∷◌, GoString}
use composite_dra_driver.Prelude.Result.{Result, ok, err}
use composite_dra_driver.Store.{DeviceMember}
use composite_dra_driver.Plugin.{ResourceClaim}
use composite_dra_driver.Shadow.Claims.{ShadowClaim, shadow_claim, shadow_claim_name}

-- a composite claim, and a member for which a shadow claim is created
pub record Request : Type 0 where
  pub claim : ResourceClaim
  pub member : DeviceMember
  pub request_name : GoString

module _ {E : Type 0} (sha256 : GoString → GoString) (driver : GoString)
    (get : GoString → GoString → Result E ResourceClaim) where
  pub shadow_for : Request → ShadowClaim
  shadow_for r = shadow_claim sha256 driver r.claim r.member r.request_name

  pub shadows_for : List Request → List ShadowClaim
  unfolding shadow_for
  shadows_for [] = []
  shadows_for (r ∷ rs) = shadow_for r ∷ shadows_for rs

  -- the shadow claims of the composite claims that the API server does not return
  unfoldable pub gone : List Request → List (GoString × GoString)
  gone [] = []
  gone (r ∷ rs) = elim (get r.claim.namespace r.claim.name) [
    | ok owner ↦ gone rs
    | err e ↦ (r.claim.namespace, shadow_claim_name sha256 r.claim.name r.member) ∷ gone rs
  ]

  is_ok : Result E ResourceClaim → Bool
  is_ok (ok owner) = true
  is_ok (err e) = false
