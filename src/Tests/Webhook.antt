-- ===== src/Tests/Webhook.antt =====
-- The webhook at concrete inputs.
use composite_dra_driver.Prelude.{
  ℕ, ◌≡◌, ◌≢◌, ◌+◌, refl, List, [], ◌∷◌, Bool, true, false, none, some, GoMap, ℤ, pos, GoString,
  codes, lookup, insert, str_eq, All, arith,
}
use composite_dra_driver.Prelude.Run.{Run, returns, panics}
use composite_dra_driver.Prelude.Result.{Result, ok}
use composite_dra_driver.Webhook.{Pod, Container, PatchOp}
use composite_dra_driver.Webhook.Handler.{
  AdmissionRequest, AdmissionResponse, AdmissionReview, AnsweredReview, serve_review, serve_http,
  json_body,
}
use composite_dra_driver.Webhook.Handler.Answers.{IsAdmitted, serve_http_lem}
use composite_dra_driver.Webhook.Escape.{json_patch_escape, unescape, json_patch_escape_lem}
use composite_dra_driver.Webhook.ClaimBuilder.{DeviceRequest}
use composite_dra_driver.Webhook.Requests.{group_matches, find_resource_requests}
use composite_dra_driver.Webhook.Patches.{ClaimInfo, request_count}
use composite_dra_driver.Webhook.Mutator.{
  ClaimTemplate, CreateResult, created, MutateError, create_claims, pod_prefix,
}
use composite_dra_driver.Webhook.Requests.Demand.{demand, count_in}
use composite_dra_driver.Webhook.Mutator.Sent.{recording}

json_patch_escape_lem_example :
    (unescape false (json_patch_escape (codes "a/~1")) ≡ codes "a/~1")
    × All (λ c. c ≢ b'/') (json_patch_escape (codes "a/~1"))
json_patch_escape_lem_example = json_patch_escape_lem (codes "a/~1")

abbrev pub resource : GoString
resource = codes "c/pair"

abbrev container : ℤ → Container ℤ
container n = record { requests = (resource, n) ∷ []; limits = []; claims = none }

abbrev pod : Pod ℤ
pod = record {
  name = codes "p";
  generate_name = [];
  namespace = codes "ns";
  annotations = none;
  containers = container (pos 1) ∷ container (pos 2) ∷ [];
  resource_claims = none;
}

abbrev pub as_int64 : ℤ → ℤ × Bool
as_int64 n = (n, true)

-- a cluster that remembers how many templates it has
abbrev pub create : ClaimTemplate → ℕ → CreateResult × ℕ
create template n = (created, n + 1)

-- the longest list that `make` takes
abbrev pub max_len : ℕ
max_len = 1000000

abbrev run : Run (Result MutateError (List ClaimInfo) × (List ClaimTemplate × ℕ))
run =
    create_claims max_len (recording create) (pod_prefix pod) (codes "ns")
      (group_matches
        (find_resource_requests as_int64 (λ i mappings. mappings) ((resource, codes "class") ∷ [])
          pod)
        [])
      (resource ∷ []) ([], 0)

abbrev claim : ClaimInfo
claim = record {
  template_name = codes "p-class";
  resource_name = resource;
  device_class_name = codes "class";
  pair_count = pos 3;
  container_idxs = 0 ∷ 1 ∷ [];
}

abbrev pair_request : GoString → DeviceRequest
pair_request name = record {
  name = name;
  device_class_name = codes "class";
  allocation_mode = codes "ExactCount";
  count = 1;
}

-- the template that it sends, with a request for each of the three pairs
abbrev template : ClaimTemplate
template = record {
  name = codes "p-class";
  namespace = codes "ns";
  labels = (codes "app.kubernetes.io/managed-by", codes "composite-dra-webhook") ∷ [];
  spec = record {
    requests =
        pair_request (codes "pair-0")
        ∷ pair_request (codes "pair-1")
        ∷ pair_request (codes "pair-2")
        ∷ [];
  };
}

abbrev request : AdmissionRequest
request = record {
  uid = codes "u";
  kind = codes "Pod";
  namespace = codes "ns";
  object = codes "{}";
}

-- every body is a review of the pod
abbrev decode : GoString → Result ℕ (Pod ℤ)
decode object = ok pod

abbrev to_json : List PatchOp → Result ℕ GoString
to_json ops = ok (codes "[]")

abbrev decode_review : GoString → Result ℕ AdmissionReview
decode_review body = ok (record { request = some request })

abbrev write_review : AnsweredReview ℕ → Result ℕ GoString
write_review review = ok review.response_uid

abbrev pub identity : ℕ → GoMap GoString → GoMap GoString
identity i mappings = mappings

abbrev pub mappings : GoMap GoString
mappings = (resource, codes "class") ∷ []

serve_http_lem_example :
    (response : AdmissionResponse ℕ) × (s' : ℕ) × IsAdmitted max_len create as_int64 identity
      mappings decode to_json request 0 response s'
    × (serve_http max_len create as_int64 identity mappings decode to_json decode_review
          write_review
          (ok (codes "body"))
          0
        ≡ returns (json_body (codes "u"), s'))
unfolding find_resource_requests group_matches lookup insert str_eq codes demand count_in
    request_count
serve_http_lem_example =
    serve_http_lem max_len create as_int64 identity mappings decode to_json decode_review
      write_review (codes "body") request 0 refl ((omega arith, omega arith), tt)

-- A review without a request makes the handler panic.
no_request :
    serve_http max_len create as_int64 identity mappings decode to_json
      (λ body. ok (record { request = none }))
      write_review
      (ok (codes "body"))
      0
    ≡ panics
unfolding serve_http serve_review
no_request = refl
