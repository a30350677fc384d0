-- ===== src/Webhook/Handler/Answers.antt =====
-- The webhook answers every review that has a request.
use composite_dra_driver.Prelude.{
  ℕ, ◌≡◌, refl, ap, subst, ◌∙◌, none, true, false, Option, Bool, some, ℤ, GoString, GoMap, List, [],
  is_empty, codes, str_eq, All, Bool-cases, inl, inr, if◌then◌else◌,
}
use composite_dra_driver.Prelude.Run.{
  Run, >>=-eq-returns, returns, Returns, Returns-at, Returns-bind,
}
use composite_dra_driver.Prelude.Result.{Result, ok, err}
use composite_dra_driver.Webhook.{Pod, PatchOp}
use composite_dra_driver.Webhook.Requests.{group_matches, find_resource_requests}
use composite_dra_driver.Webhook.Mutator.{ClaimTemplate, CreateResult, MutateError, mutate}
use composite_dra_driver.Webhook.Mutator.NoPanic.{IsSmall, mutate-Returns}
use composite_dra_driver.Webhook.Handler.{
  AdmissionRequest, AdmissionResponse, allowed, patched, refused, unmarshal_pod, mutation_failed,
  serialize_patches, serialized, respond, AdmissionReview, AnsweredReview, admit_pod,
  handle_admission, HttpResponse, json_body, http_error, marshal_response, marshalled, answer,
  serve_review, serve_http,
}

module _ {ℓ κ} {E : Type ℓ} {State : Type κ} {Q : Type 0} (max_len : ℕ)
    (create : ClaimTemplate → State → CreateResult × State) (as_int64 : Q → ℤ × Bool)
    (visit : ℕ → GoMap GoString → GoMap GoString) (mappings : GoMap GoString)
    (decode : GoString → Result E (Pod Q)) (to_json : List PatchOp → Result E GoString) where
  -- a pod that the request carries asks for fewer than 2^63 of each composition
  abbrev pub IsBounded : Result E (Pod Q) → Type 0
  IsBounded (err e) = Unit
  IsBounded (ok pod) =
      All (IsSmall as_int64 pod max_len)
        (group_matches (find_resource_requests as_int64 visit mappings pod) [])

  admit_pod-Returns :
      (namespace : GoString) (pod : Result E (Pod Q)) (s : State)
      → IsBounded pod
      → Returns
          (λ _. Unit)
          (admit_pod max_len create as_int64 visit mappings decode to_json namespace pod s)
  unfolding admit_pod IsBounded
  admit_pod-Returns namespace (err e) s h = tt
  admit_pod-Returns namespace (ok pod) s h =
      let ns = if is_empty namespace then pod.namespace else namespace in
      Returns-bind (λ _. Unit) (λ _. Unit) (mutate max_len create as_int64 visit mappings pod ns s)
        _ (mutate-Returns as_int64 pod max_len create visit mappings ns s h) (λ r _. tt)

  handle_admission-Returns :
      (req : AdmissionRequest) (s : State)
      → IsBounded (decode req.object)
      → Returns
          (λ _. Unit)
          (handle_admission max_len create as_int64 visit mappings decode to_json req s)
  unfolding handle_admission
  handle_admission-Returns req s h = elim (Bool-cases (str_eq req.kind (codes "Pod"))) [
    | inl e ↦ rw e (admit_pod-Returns req.namespace (decode req.object) s h)
    | inr e ↦ rw e tt
  ]

  -- the answer to what `Mutate` gives
  abbrev pub IsResponse : Result MutateError (Option (List PatchOp)) → AdmissionResponse E → Type ℓ
  IsResponse (err e) response = response ≡ refused (mutation_failed e)
  IsResponse (ok none) response = response ≡ allowed
  IsResponse (ok (some patches)) response = response ≡ (elim (to_json patches) [
    | ok patch_bytes ↦ patched patch_bytes
    | err e ↦ refused (serialize_patches e)
  ])

  -- a pod that does not decode is refused, and any other is given to `Mutate`, in the request's
  -- namespace or else its own
  abbrev pub IsAdmittedPod :
      GoString → Result E (Pod Q) → State → AdmissionResponse E → State → Type (ℓ ⊔ κ)
  IsAdmittedPod namespace (err e) s response s' = (response ≡ refused (unmarshal_pod e)) × (s' ≡ s)
  IsAdmittedPod namespace (ok pod) s response s' =
      (result : Result MutateError (Option (List PatchOp))) × (mutate max_len create as_int64 visit
          mappings pod (if is_empty namespace then pod.namespace else namespace) s
        ≡ returns (result, s'))
      × IsResponse result response

  -- what is no pod is allowed
  abbrev pub IsAdmitted : AdmissionRequest → State → AdmissionResponse E → State → Type (ℓ ⊔ κ)
  IsAdmitted req s response s' = elim (str_eq req.kind (codes "Pod")) [
    | true ↦ IsAdmittedPod req.namespace (decode req.object) s response s'
    | false ↦ (response ≡ allowed) × (s' ≡ s)
  ]

  respond-IsResponse :
      (result : Result MutateError (Option (List PatchOp)))
      → IsResponse result (respond max_len create as_int64 visit mappings decode to_json result)
  unfolding respond serialized
  respond-IsResponse (err e) = refl
  respond-IsResponse (ok none) = refl
  respond-IsResponse (ok (some patches)) = written (to_json patches)
    where
      written :
          (r : Result E GoString)
          → serialized max_len create as_int64 visit mappings decode to_json r ≡ (elim r [
            | ok patch_bytes ↦ patched patch_bytes
            | err e ↦ refused (serialize_patches e)
          ])
      written (ok b) = refl
      written (err e) = refl

  admit_pod-IsAdmittedPod :
      (namespace : GoString) (pod : Result E (Pod Q)) (s : State) (response : AdmissionResponse E)
      (s' : State)
      → admit_pod max_len create as_int64 visit mappings decode to_json namespace pod s
        ≡ returns (response, s')
      → IsAdmittedPod namespace pod s response s'
  unfolding admit_pod
  admit_pod-IsAdmittedPod namespace (err e) s response s' h = (cc, cc)
  admit_pod-IsAdmittedPod namespace (ok pod) s response s' h =
      let ns = if is_empty namespace then pod.namespace else namespace in
      let ((result, s''), made, last) =
        >>=-eq-returns (mutate max_len create as_int64 visit mappings pod ns s) _ h in
      let same : s'' ≡ s' = cc in
      let answered : respond max_len create as_int64 visit mappings decode to_json result
          ≡ response =
        cc in
      (
        result,
        made ∙ ap (λ x. returns (result, x)) same,
        subst (IsResponse result) answered (respond-IsResponse result),
      )

  handle_admission-IsAdmitted :
      (req : AdmissionRequest) (s : State) (response : AdmissionResponse E) (s' : State)
      → handle_admission max_len create as_int64 visit mappings decode to_json req s
        ≡ returns (response, s')
      → IsAdmitted req s response s'
  unfolding handle_admission
  handle_admission-IsAdmitted req s response s' h =
      elim (Bool-cases (str_eq req.kind (codes "Pod"))) [
        | inl e ↦
            rw (e, IsAdmitted)
              (admit_pod-IsAdmittedPod req.namespace (decode req.object) s response s' (rw e at h))
        | inr e ↦
            let q : ◌≡◌ {A = Run (AdmissionResponse E × State)} (returns (allowed, s))
                (returns (response, s')) =
              rw e at h in
            rw (e, IsAdmitted) (cc, cc)
      ]

  module _ (decode_review : GoString → Result E AdmissionReview)
      (marshal : AnsweredReview E → Result E GoString) where
    answer-written :
        (req : AdmissionRequest) (response : AdmissionResponse E) (r : Result E GoString)
        → marshal (record { request = req; response = response; response_uid = req.uid }) ≡ r
        → answer max_len create as_int64 visit mappings decode to_json decode_review marshal req
            response
          ≡ (elim r [
            | ok resp_bytes ↦ json_body resp_bytes
            | err e ↦ http_error 500 (marshal_response e)
          ])
    unfolding answer marshalled
    answer-written req response (ok resp_bytes) h = rw h refl
    answer-written req response (err e) h = rw h refl

    -- A body that decodes to a review with a request, whose pod asks for fewer than 2^63 of each
    -- composition and not more than `make` takes, is answered without a panic: what is no pod is
    -- allowed, a pod that does not decode is refused, and any other gets what `Mutate` gives, its
    -- error, no patch or its patch in JSON; the answer has the request's UID, unless it cannot be
    -- marshalled, which is answered with status 500.
    pub serve_http_lem :
        (body : GoString) (req : AdmissionRequest) (s : State)
        → decode_review body ≡ ok (record { request = some req })
        → IsBounded (decode req.object)
        → (response : AdmissionResponse E) × (s' : State) × IsAdmitted req s response s'
          × (serve_http max_len create as_int64 visit mappings decode to_json decode_review marshal
                (ok body)
                s
              ≡ returns (
                (elim (marshal
                    (record { request = req; response = response; response_uid = req.uid })) [
                      | ok resp_bytes ↦ json_body resp_bytes
                      | err e ↦ http_error 500 (marshal_response e)
                    ]),
                s',
              ))
    unfolding serve_http serve_review
    serve_http_lem body req s e small =
        let ((response, s'), f, done) =
          Returns-at (λ _. Unit) _ (handle_admission-Returns req s small) in
        (
          response,
          s',
          handle_admission-IsAdmitted req s response s' f,
          rw (e, f)
              (ap (λ (a : HttpResponse E). returns (a, s')) (answer-written req response _ refl)),
        )
