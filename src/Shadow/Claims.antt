-- ===== src/Shadow/Claims.antt =====
-- pkg/shadow/claims.go. The API server is a record of operations on a state of the cluster; `sha256`
-- is the hash.
pub mod Atomic
use composite_dra_driver.Prelude.{
  ℕ, ◌+◌, ◌/◌, ◌%◌, ltb, List, [], ◌∷◌, ◌++◌, Option, none, some, GoString, codes, truncate, GoMap,
  take, if◌then◌else◌,
}
use composite_dra_driver.Prelude.Result.{Result, ok, err}
use composite_dra_driver.Store.{DeviceMember}
use composite_dra_driver.Plugin.{ShadowClaimInfo, ResourceClaim, AllocationResult}
use composite_dra_driver.Webhook.ClaimBuilder.{DeviceRequest}

-- `metav1.OwnerReference`
pub record OwnerReference : Type 0 where
  pub api_version : GoString
  pub kind : GoString
  pub name : GoString
  pub uid : GoString

-- `resourceapi.DeviceAllocationConfiguration` with opaque parameters
pub record OpaqueConfig : Type 0 where
  pub source : GoString
  pub requests : List GoString
  pub driver : GoString
  pub parameters : GoString

-- the claim that `Create` sends, and its status
pub record ShadowClaim : Type 0 where
  pub name : GoString
  pub namespace : GoString
  pub uid : GoString
  pub labels : GoMap GoString
  pub owner_references : List OwnerReference
  pub requests : List DeviceRequest
  pub results : List AllocationResult
  pub config : List OpaqueConfig
  pub reserved_for : List GoString

pub record ClaimsApi {ℓ κ} (E : Type ℓ) (State : Type κ) : Type (ℓ ⊔ κ) where
  pub create : ShadowClaim → State → Result E ShadowClaim × State
  pub update_status : ShadowClaim → State → Result E ShadowClaim × State
  pub get : GoString → GoString → State → Result E ShadowClaim
  pub list : GoString → GoString → State → Result E (List ShadowClaim)
  pub delete : GoString → GoString → State → Option E × State

-- `delete shadow claim namespace/name: cause`
pub record DeleteError {ℓ} (E : Type ℓ) : Type ℓ where
  pub namespace : GoString
  pub name : GoString
  pub cause : E

-- the errors, each with the name that its message has
pub data ClaimError {ℓ} (E : Type ℓ) : Type ℓ where
  create_shadow_claim update_status get_shadow_claim : GoString → E → ClaimError E
  list_shadow_claims : GoString → E → ClaimError E
  failed_deletes : List (DeleteError E) → ClaimError E

hex_digit : ℕ → ℕ
hex_digit d = if ltb d 10 then b'0' + d else 87 + d

-- `hex.EncodeToString`
hex : GoString → GoString
unfolding hex_digit
hex [] = []
hex (c ∷ s) = hex_digit (c / 16) ∷ hex_digit (c % 16) ∷ hex s

unfoldable pub shadow_claim_name : (GoString → GoString) → GoString → DeviceMember → GoString
unfolding hex
shadow_claim_name sha256 composite_claim_name member =
    let prefix = hex (take 4 (sha256 composite_claim_name)) in
    truncate 63 (
      codes "shadow-"
      ++ (prefix ++ (codes "-" ++ (member.source_name ++ (codes "-" ++ member.device)))))

abbrev pub managed_by : GoString
managed_by = codes "app.kubernetes.io/managed-by"

abbrev pub claim_uid_label : GoString
claim_uid_label = codes "composite-claim-uid"

opaque_config : DeviceMember → GoString → Option GoString → List OpaqueConfig
opaque_config member request_name none = []
opaque_config member request_name (some raw) =
    record {
      source = codes "FromClaim";
      requests = request_name ∷ [];
      driver = member.driver;
      parameters = raw;
    }
    ∷ []

module _ (sha256 : GoString → GoString) (driver_name : GoString) where
  -- the claim without its status
  unfoldable pub shadow_claim : ResourceClaim → DeviceMember → GoString → ShadowClaim
  shadow_claim claim member request_name = record {
    name = shadow_claim_name sha256 claim.name member;
    namespace = claim.namespace;
    uid = [];
    labels = (managed_by, driver_name) ∷ (claim_uid_label, claim.uid) ∷ [];
    owner_references =
        record {
          api_version = codes "resource.k8s.io/v1";
          kind = codes "ResourceClaim";
          name = claim.name;
          uid = claim.uid;
        }
        ∷ [];
    requests =
        record {
          name = request_name;
          device_class_name = member.device_class_name;
          allocation_mode = codes "ExactCount";
          count = 1;
        }
        ∷ [];
    results = [];
    config = [];
    reserved_for = [];
  }

  module _ {ℓ κ} {E : Type ℓ} {State : Type κ} (api : ClaimsApi E State) where
    info_of : ShadowClaim → ShadowClaimInfo
    info_of c = record { namespace = c.namespace; name = c.name; uid = c.uid }

    -- a claim whose status cannot be set is deleted again
    status_set :
        ResourceClaim
        → GoString
        → Result E ShadowClaim × State
        → Result (ClaimError E) ShadowClaimInfo × State
    unfolding info_of
    status_set claim shadow_name (ok updated, s) = (ok (info_of updated), s)
    status_set claim shadow_name (err e, s) =
        (err (update_status shadow_name e), (api.delete claim.namespace shadow_name s).1)

    with_status :
        ResourceClaim
        → DeviceMember
        → GoString
        → Option GoString
        → List GoString
        → ShadowClaim
        → ShadowClaim
    unfolding opaque_config
    with_status claim member request_name raw reserved_for created = record created {
      results =
          record {
            request = request_name;
            driver = member.driver;
            pool = member.pool;
            device = member.device;
          }
          ∷ [];
      config = opaque_config member request_name raw;
      reserved_for = reserved_for;
    }

    created_claim :
        ResourceClaim
        → DeviceMember
        → GoString
        → Option GoString
        → List GoString
        → Result E ShadowClaim × State
        → Result (ClaimError E) ShadowClaimInfo × State
    unfolding status_set with_status
    created_claim claim member request_name raw reserved_for (err e, s) =
        (err (create_shadow_claim (shadow_claim_name sha256 claim.name member) e), s)
    created_claim claim member request_name raw reserved_for (ok created, s) =
        status_set claim (shadow_claim_name sha256 claim.name member)
          (api.update_status (with_status claim member request_name raw reserved_for created) s)

    -- `reserved_for` is the composite claim's `Status.ReservedFor`
    unfoldable pub create :
        ResourceClaim
        → DeviceMember
        → GoString
        → Option GoString
        → List GoString
        → State
        → Result (ClaimError E) ShadowClaimInfo × State
    unfolding created_claim
    create claim member request_name raw reserved_for s =
        created_claim claim member request_name raw reserved_for
          (api.create (shadow_claim claim member request_name) s)

    pub get : ResourceClaim → DeviceMember → State → Result (ClaimError E) ShadowClaimInfo
    unfolding info_of
    get claim member s =
        let shadow_name = shadow_claim_name sha256 claim.name member in
        elim (api.get claim.namespace shadow_name s) [
          | ok existing ↦ ok (info_of existing)
          | err e ↦ err (get_shadow_claim shadow_name e)
        ]

    delete_answer : GoString → GoString → Option E × State → Option (DeleteError E) × State
    delete_answer namespace name (none, s) = (none, s)
    delete_answer namespace name (some e, s) =
        (some (record { namespace = namespace; name = name; cause = e }), s)

    pub delete : GoString → GoString → State → Option (DeleteError E) × State
    unfolding delete_answer
    delete namespace name s = delete_answer namespace name (api.delete namespace name s)

    keep_error : Option (DeleteError E) → List (DeleteError E) → List (DeleteError E)
    keep_error none errs = errs
    keep_error (some e) errs = errs ++ e ∷ []

    -- the loop over the listed claims
    delete_all :
        GoString → List ShadowClaim → List (DeleteError E) → State → List (DeleteError E) × State
    unfolding delete keep_error
    delete_all namespace [] errs s = (errs, s)
    delete_all namespace (c ∷ cs) errs s =
        let (answer, s') = delete namespace c.name s in
        delete_all namespace cs (keep_error answer errs) s'

    reported : List (DeleteError E) × State → Option (ClaimError E) × State
    reported ([], s) = (none, s)
    reported (e ∷ errs, s) = (some (failed_deletes (e ∷ errs)), s)

    pub delete_for_composite_claim : GoString → GoString → State → Option (ClaimError E) × State
    unfolding delete_all reported
    delete_for_composite_claim namespace uid s =
        let selector =
          managed_by
          ++ (codes "="
              ++ (driver_name ++ (codes "," ++ (claim_uid_label ++ (codes "=" ++ uid))))) in
        elim (api.list namespace selector s) [
          | err e ↦ (some (list_shadow_claims uid e), s)
          | ok items ↦ reported (delete_all namespace items [] s)
        ]
