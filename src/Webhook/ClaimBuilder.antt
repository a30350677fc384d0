-- ===== src/Webhook/ClaimBuilder.antt =====
-- pkg/webhook/claim_builder.go. `max_len` is the length above which `make([]DeviceRequest, n)` panics,
-- which Go leaves to the platform; that memory may run out below it is left out.
use composite_dra_driver.Prelude.{
  if◌then◌else◌, ltb, ℕ, zero, suc, ◌++◌, List, [], ◌∷◌, ℤ, pos, negsuc, GoString, codes, decimal,
}
use composite_dra_driver.Prelude.Run.{Run, returns, panics}

-- `resourceapi.DeviceRequest` with its `Exactly`
pub record DeviceRequest : Type 0 where
  pub name : GoString
  pub device_class_name : GoString
  pub allocation_mode : GoString
  pub count : ℕ

pub record ClaimSpec : Type 0 where
  pub requests : List DeviceRequest

unfoldable pub pair_name : ℕ → GoString
pair_name i = codes "pair-" ++ decimal i

-- the loop over the requests from index `i` on
unfoldable pub requests_from : GoString → ℕ → ℕ → List DeviceRequest
requests_from device_class_name i zero = []
requests_from device_class_name i (suc n) =
    record {
      name = pair_name i;
      device_class_name = device_class_name;
      allocation_mode = codes "ExactCount";
      count = 1;
    }
    ∷ requests_from device_class_name (suc i) n

-- `make` panics on a length that is negative, or above the largest one of the platform
unfoldable pub build_claim_spec : ℕ → GoString → ℤ → Run ClaimSpec
unfolding requests_from
build_claim_spec max_len device_class_name (pos n) =
    if ltb max_len n
    then panics
    else returns (record { requests = requests_from device_class_name 0 n })
build_claim_spec max_len device_class_name (negsuc n) = panics
