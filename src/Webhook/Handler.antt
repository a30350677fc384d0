-- ===== src/Webhook/Handler.antt =====
-- pkg/webhook/handler.go: `handleAdmission` and `ServeHTTP`. `decode` and `to_json` are
-- encoding/json's, `decode_review` is the deserializer and `marshal` writes the answered review.
pub mod Answers
use composite_dra_driver.Prelude.{
  ℕ, Bool, List, Option, none, some, ℤ, GoString, codes, is_empty, str_eq, GoMap, if◌then◌else◌,
}
use composite_dra_driver.Prelude.Run.{Run, returns, ◌>>=◌, deref}
use composite_dra_driver.Prelude.Result.{Result, ok, err}
use composite_dra_driver.Webhook.{Pod, PatchOp}
use composite_dra_driver.Webhook.Mutator.{ClaimTemplate, CreateResult, MutateError, mutate}

pub record AdmissionRequest : Type 0 where
  pub uid : GoString
  pub kind : GoString
  pub namespace : GoString
  pub object : GoString

pub data Refusal {ℓ} (E : Type ℓ) : Type ℓ where
  unmarshal_pod : E → Refusal E
  mutation_failed : MutateError → Refusal E
  serialize_patches : E → Refusal E

-- `AdmissionResponse`: allowed, with a JSON patch or without, or refused with a message
pub data AdmissionResponse {ℓ} (E : Type ℓ) : Type ℓ where
  allowed : AdmissionResponse E
  patched : GoString → AdmissionResponse E
  refused : Refusal E → AdmissionResponse E

-- `AdmissionReview`, as it is decoded; the request is a pointer
pub record AdmissionReview : Type 0 where
  pub request : Option AdmissionRequest

-- the review that is written: its request, and the response with the request's UID
pub record AnsweredReview {ℓ} (E : Type ℓ) : Type ℓ where
  pub request : AdmissionRequest
  pub response : AdmissionResponse E
  pub response_uid : GoString

pub data HttpFailure {ℓ} (E : Type ℓ) : Type ℓ where
  read_body decode_body marshal_response : E → HttpFailure E

-- an error's status and message, or a body of JSON
pub data HttpResponse {ℓ} (E : Type ℓ) : Type ℓ where
  http_error : ℕ → HttpFailure E → HttpResponse E
  json_body : GoString → HttpResponse E

module _ {ℓ κ} {E : Type ℓ} {State : Type κ} {Q : Type 0} (max_len : ℕ)
    (create : ClaimTemplate → State → CreateResult × State) (as_int64 : Q → ℤ × Bool)
    (visit : ℕ → GoMap GoString → GoMap GoString) (mappings : GoMap GoString)
    (decode : GoString → Result E (Pod Q)) (to_json : List PatchOp → Result E GoString) where
  serialized : Result E GoString → AdmissionResponse E
  serialized (ok patch_bytes) = patched patch_bytes
  serialized (err e) = refused (serialize_patches e)

  -- the answer to what `Mutate` returns
  respond : Result MutateError (Option (List PatchOp)) → AdmissionResponse E
  unfolding serialized
  respond (err e) = refused (mutation_failed e)
  respond (ok none) = allowed
  respond (ok (some patches)) = serialized (to_json patches)

  admit_pod : GoString → Result E (Pod Q) → State → Run (AdmissionResponse E × State)
  unfolding respond
  admit_pod namespace (err e) s = returns (refused (unmarshal_pod e), s)
  admit_pod namespace (ok pod) s = do
    (result, s') ←
        mutate max_len create as_int64 visit mappings pod
          (if is_empty namespace then pod.namespace else namespace) s
    returns (respond result, s')

  unfoldable pub handle_admission : AdmissionRequest → State → Run (AdmissionResponse E × State)
  unfolding admit_pod
  handle_admission req s =
      if str_eq req.kind (codes "Pod")
      then admit_pod req.namespace (decode req.object) s
      else returns (allowed, s)

  module _ (decode_review : GoString → Result E AdmissionReview)
      (marshal : AnsweredReview E → Result E GoString) where
    marshalled : Result E GoString → HttpResponse E
    marshalled (ok resp_bytes) = json_body resp_bytes
    marshalled (err e) = http_error 500 (marshal_response e)

    -- the answer to a review
    unfoldable pub answer : AdmissionRequest → AdmissionResponse E → HttpResponse E
    unfolding marshalled
    answer req response =
        marshalled (marshal (record { request = req; response = response; response_uid = req.uid }))

    -- after decoding; a review without a request is a nil dereference
    unfoldable pub serve_review : Result E AdmissionReview → State → Run (HttpResponse E × State)
    unfolding answer handle_admission
    serve_review (err e) s = returns (http_error 400 (decode_body e), s)
    serve_review (ok review) s = do
      req ← deref review.request
      (response, s') ← handle_admission req s
      returns (answer req response, s')

    -- `body` is what reading the request's body gives
    unfoldable pub serve_http : Result E GoString → State → Run (HttpResponse E × State)
    unfolding serve_review
    serve_http (err e) s = returns (http_error 400 (read_body e), s)
    serve_http (ok body) s = serve_review (decode_review body) s
