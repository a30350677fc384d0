-- ===== src/Webhook/Mutator/Applied.antt =====
-- `Mutate` of pkg/webhook/mutator.go and the API server, which applies its patch.
use composite_dra_driver.Prelude.{
  ℕ, ◌≡◌, refl, ap, ◌∙◌, Bool, true, List, [], ◌∷◌, Option, none, some, ℤ, GoString, codes, GoMap,
  lookup_or, lookup_or-eq, lookup-insert_self, keys, All, Bool-cases, inl, inr, str_eq,
}
use composite_dra_driver.Prelude.Run.{Run, returns, >>=-eq-returns}
use composite_dra_driver.Prelude.Result.{Result, ok, err}
use composite_dra_driver.Webhook.{Pod, PatchOp}
use composite_dra_driver.Webhook.Requests.{
  ResourceMatch, group_matches, sort_strings, find_resource_requests,
}
use composite_dra_driver.Webhook.Requests.Requested.{
  HasRequest, find_resource_requests-AllRequested,
}
use composite_dra_driver.Webhook.Patches.{ClaimInfo, mutated_annotation, build_patches}
use composite_dra_driver.Webhook.JsonPatch.{apply_all}
use composite_dra_driver.Webhook.JsonPatch.Applied.{IsReleased, annotated, build_patches-applied}
use composite_dra_driver.Webhook.Mutator.{
  ClaimTemplate, CreateResult, MutateError, pod_prefix, create_claims, patches_for, mutate_matches,
  is_mutated, mutate,
}

module _ {ℓ} {State : Type ℓ} (max_len : ℕ) (create : ClaimTemplate → State → CreateResult × State)
    {Q : Type 0} (as_int64 : Q → ℤ × Bool) (visit : ℕ → GoMap GoString → GoMap GoString)
    (mappings : GoMap GoString) where
  is_mutated-annotated :
      (annotations : Option (GoMap GoString))
      → is_mutated max_len create as_int64 visit mappings (some (annotated annotations)) ≡ true
  unfolding is_mutated annotated codes str_eq lookup_or
  is_mutated-annotated none = refl
  is_mutated-annotated (some m) =
      rw
        (lookup_or-eq [] mutated_annotation (annotated (some m)) (codes "true")
          (lookup-insert_self mutated_annotation (codes "true") m))
        refl

  -- the patch applies, marks the pod and takes the matched resources out of it
  abbrev IsApplied : Pod Q → List PatchOp → List ResourceMatch → Type 0
  IsApplied pod os matches =
      (pod' : Pod Q) × (apply_all os pod ≡ some pod')
      × (pod'.annotations ≡ some (annotated pod.annotations))
      × All (IsReleased pod') matches

  patches_for-IsApplied :
      (pod : Pod Q) (matches : List ResourceMatch)
      (made : Result MutateError (List ClaimInfo) × State) (os : List PatchOp) (s : State)
      → All (HasRequest pod) matches
      → patches_for max_len create as_int64 visit mappings pod matches made
        ≡ returns (ok (some os), s)
      → IsApplied pod os matches
  unfolding patches_for
  patches_for-IsApplied pod matches (err e, s') os s h p = cc
  patches_for-IsApplied pod matches (ok claims, s') os s h p =
      let (patches, built, last) = >>=-eq-returns (build_patches as_int64 pod matches claims) _ p in
      let q : patches ≡ os = cc in
      build_patches-applied as_int64 pod matches claims os h (built ∙ ap returns q)

  mutate_matches-IsApplied :
      (pod : Pod Q) (namespace : GoString) (matches : List ResourceMatch) (os : List PatchOp)
      (s s' : State)
      → All (HasRequest pod) matches
      → mutate_matches max_len create as_int64 visit mappings pod namespace matches s
        ≡ returns (ok (some os), s')
      → IsApplied pod os matches
  unfolding mutate_matches
  mutate_matches-IsApplied pod namespace [] os s s' h e = cc
  mutate_matches-IsApplied pod namespace (m ∷ ms) os s s' h e =
      let comp_map = group_matches (m ∷ ms) [] in
      let (made, made_eq, rest) =
        >>=-eq-returns
          (create_claims max_len create (pod_prefix pod) namespace comp_map
            (sort_strings (keys comp_map)) s)
          _ e in
      patches_for-IsApplied pod (m ∷ ms) made os s' h rest

  mutate-marked :
      (pod : Pod Q) (namespace : GoString) (s : State)
      → is_mutated max_len create as_int64 visit mappings pod.annotations ≡ true
      → mutate max_len create as_int64 visit mappings pod namespace s ≡ returns (ok none, s)
  unfolding mutate
  mutate-marked pod namespace s h = rw h refl

  -- A patch that `Mutate` returns is one that the API server accepts for the pod, whose containers
  -- then have neither a request nor a limit of a resource that was matched, and `Mutate` has
  -- nothing more to do on the new pod, in any state of the cluster.
  pub apply_all-mutate :
      (pod : Pod Q) (namespace : GoString) (os : List PatchOp) (s s' t : State)
      → mutate max_len create as_int64 visit mappings pod namespace s ≡ returns (ok (some os), s')
      → (pod' : Pod Q) × (apply_all os pod ≡ some pod')
        × All (IsReleased pod') (find_resource_requests as_int64 visit mappings pod)
        × (mutate max_len create as_int64 visit mappings pod' namespace t ≡ returns (ok none, t))
  unfolding mutate
  apply_all-mutate pod namespace os s s' t e =
      elim (Bool-cases (is_mutated max_len create as_int64 visit mappings pod.annotations)) [
        | inl marked ↦ absurd (
            let q : ◌≡◌ {A = Run (Result MutateError (Option (List PatchOp)) × State)}
                (returns (ok none, s)) (returns (ok (some os), s')) =
              rw marked at e in
            cc)
        | inr new_ ↦
            let (pod', applied, noted, released) =
              mutate_matches-IsApplied pod namespace
                (find_resource_requests as_int64 visit mappings pod) os s s'
                (find_resource_requests-AllRequested pod as_int64 visit mappings) (rw new_ at e) in
            (
              pod',
              applied,
              released,
              mutate-marked pod' namespace t (rw noted (is_mutated-annotated pod.annotations)),
            )
      ]
