-- ===== src/Shadow/Claims/Atomic.antt =====
-- What `Create` leaves in the cluster.
use composite_dra_driver.Prelude.{
  ◌≡◌, Bool, ◌&&◌, List, [], ◌∷◌, codes, Option, none, some, GoString, str_eq, if◌then◌else◌,
}
use composite_dra_driver.Prelude.Result.{Result, ok, err}
use composite_dra_driver.Store.{DeviceMember}
use composite_dra_driver.Plugin.{ShadowClaimInfo, ResourceClaim}
use composite_dra_driver.Shadow.Claims.{
  ShadowClaim, ClaimsApi, ClaimError, shadow_claim_name, shadow_claim, with_status, create,
}

abbrev pub is_named : GoString → GoString → GoString → GoString → Bool
is_named namespace name n m = str_eq n namespace && str_eq m name

-- What is documented of the API server: a request that it refuses changes nothing, a claim is created
-- only where there is none of its name and gets a UID, an update of the status replaces the status of a
-- claim that is there and nothing else, and each request concerns the claim of its name only.
pub record IsClaimsApi {E State : Type 0} (api : ClaimsApi E State) : Type 0 where
  pub find : GoString → GoString → State → Option ShadowClaim
  pub created_new :
      (c made : ShadowClaim) (s s' : State)
      → api.create c s ≡ (ok made, s')
      → (find c.namespace c.name s ≡ none)
        × ((n m : GoString)
            → find n m s' ≡ (if is_named c.namespace c.name n m then some made else find n m s))
        × ((uid : GoString) × (made ≡ record c { uid = uid }))
  pub create_refused :
      (c : ShadowClaim) (e : E) (s s' : State)
      → api.create c s ≡ (err e, s')
      → (n m : GoString) → find n m s' ≡ find n m s
  pub updated :
      (c made : ShadowClaim) (s s' : State)
      → api.update_status c s ≡ (ok made, s')
      → ((old : ShadowClaim) × (find c.namespace c.name s ≡ some old)
          × (made ≡ record old {
            results = c.results;
            config = c.config;
            reserved_for = c.reserved_for;
          }))
        × ((n m : GoString)
            → find n m s' ≡ (if is_named c.namespace c.name n m then some made else find n m s))
  pub update_refused :
      (c : ShadowClaim) (e : E) (s s' : State)
      → api.update_status c s ≡ (err e, s')
      → (n m : GoString) → find n m s' ≡ find n m s
  pub deleted :
      (namespace name : GoString) (s s' : State)
      → api.delete namespace name s ≡ (none, s')
      → (n m : GoString) → find n m s' ≡ (if is_named namespace name n m then none else find n m s)

module _ {E State : Type 0} (sha256 : GoString → GoString) (driver_name : GoString)
    (api : ClaimsApi E State) (is : IsClaimsApi api) (claim : ResourceClaim) (member : DeviceMember)
    (request_name : GoString) (raw : Option GoString) (reserved_for : List GoString)
    (no_fault : (s : State) (c : ShadowClaim)
      → is.find claim.namespace (shadow_claim_name sha256 claim.name member) s ≡ some c
      → (api.delete claim.namespace (shadow_claim_name sha256 claim.name member) s).0 ≡ none) where
  open is use {find}

  name : GoString
  name = shadow_claim_name sha256 claim.name member

  -- the claim of the member, allocated to its device, with the UID that the API server gave it
  pub member_claim : GoString → ShadowClaim
  member_claim uid = record {
    name = shadow_claim_name sha256 claim.name member;
    namespace = claim.namespace;
    uid = uid;
    labels =
        (codes "app.kubernetes.io/managed-by", driver_name)
        ∷ (codes "composite-claim-uid", claim.uid)
        ∷ [];
    owner_references =
        record {
          api_version = codes "resource.k8s.io/v1";
          kind = codes "ResourceClaim";
          name = claim.name;
          uid = claim.uid;
        }
        ∷ [];
    requests =
        record {
          name = request_name;
          device_class_name = member.device_class_name;
          allocation_mode = codes "ExactCount";
          count = 1;
        }
        ∷ [];
    results =
        record {
          request = request_name;
          driver = member.driver;
          pool = member.pool;
          device = member.device;
        }
        ∷ [];
    config = elim raw [
      | none ↦ []
      | some parameters ↦
          record {
            source = codes "FromClaim";
            requests = request_name ∷ [];
            driver = member.driver;
            parameters = parameters;
          }
          ∷ []
    ];
    reserved_for = reserved_for;
  }

  -- After a success the cluster has the member's claim, which is returned, and is else as before, and
  -- there was no claim of its name; after an error it is as before.
  pub IsAtomic : State → Result (ClaimError E) ShadowClaimInfo × State → Type 0
  unfolding member_claim
  IsAtomic s (ok info, s') =
      (uid : GoString) × ((n m : GoString)
        → find n m s' ≡ (
            if is_named claim.namespace (shadow_claim_name sha256 claim.name member) n m
            then some (member_claim uid)
            else find n m s))
      × (info ≡ record {
        namespace = claim.namespace;
        name = shadow_claim_name sha256 claim.name member;
        uid = uid;
      })
  IsAtomic s (err e, s') = (n m : GoString) → find n m s' ≡ find n m s

  -- the claim with its status
  allocated : GoString → ShadowClaim
  allocated uid =
      with_status sha256 driver_name api claim member request_name raw reserved_for
        (record (shadow_claim sha256 driver_name claim member request_name) { uid = uid })
