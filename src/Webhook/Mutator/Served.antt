-- ===== src/Webhook/Mutator/Served.antt =====
-- Each claim of the webhook counts what its containers request.
use composite_dra_driver.Prelude.{
  ℕ, zero, suc, ◌+◌, ◌≡◌, refl, sym, ap, ◌∙◌, subst, arith, Bool, List, [], ◌∷◌, ◌++◌, ℤ, GoString,
  GoMap, lookup, All, All-lookup, Option-cases, inl, inr,
}
use composite_dra_driver.Prelude.Run.{
  Run, Returns, Returns-bind, IfReturns, IfReturns-bind, IfReturns-any,
}
use composite_dra_driver.Prelude.Result.{Result, ok, err}
use composite_dra_driver.Webhook.{ClaimRef, Container, Pod}
use composite_dra_driver.Webhook.ClaimBuilder.{pair_name, build_claim_spec}
use composite_dra_driver.Webhook.Requests.{CompositionRequest}
use composite_dra_driver.Webhook.Patches.{ClaimInfo, refs_from, request_count, container_refs}
use composite_dra_driver.Webhook.Mutator.{
  ClaimTemplate, CreateResult, created, already_exists, failed, MutateError, claim_of,
  unless_failed, with_claim, create_claims, composition_template_name,
}
use composite_dra_driver.Webhook.Requests.Demand.{
  count_in, demand, HasContainer, IsFair, IsFairEntry,
}

module _ {Q : Type 0} (as_int64 : Q → ℤ × Bool) (pod : Pod Q) where
  abbrev pub IsServed : ClaimInfo → Type 0
  IsServed claim = IsFair as_int64 pod claim.resource_name claim.pair_count claim.container_idxs

  unfoldable pub AllServed : Result MutateError (List ClaimInfo) → Type 0
  AllServed (ok claims) = All IsServed claims
  AllServed (err e) = Unit

  module _ {ℓ} {State : Type ℓ} (max_len : ℕ)
      (create : ClaimTemplate → State → CreateResult × State) where
    unfoldable pub Good : Result MutateError (List ClaimInfo) × State → Type 0
    Good r = AllServed r.0

    with_claim-Good :
        (claim : ClaimInfo) (r : Result MutateError (List ClaimInfo) × State)
        → IsServed claim
        → Good r
        → Good (with_claim max_len create claim r)
    unfolding with_claim Good AllServed
    with_claim-Good claim (ok claims, s) p h = (p, h)
    with_claim-Good claim (err e, s) p h = tt

    unless_failed-Good :
        (made : CreateResult × State) (name : GoString)
        (next : State → Run (Result MutateError (List ClaimInfo) × State))
        → ((s : State) → IfReturns Good (next s))
        → IfReturns Good (unless_failed max_len create made name next)
    unfolding unless_failed Good AllServed
    unless_failed-Good (created, s) name next h = h s
    unless_failed-Good (already_exists, s) name next h = h s
    unless_failed-Good (failed, s) name next h = tt

    fair_claim :
        (res_name name : GoString) (cr : CompositionRequest)
        → IsFairEntry as_int64 pod (res_name, cr)
        → IsServed (claim_of max_len create name cr)
    unfolding claim_of
    fair_claim res_name name cr (named, fair) =
        subst (λ k. IsFair as_int64 pod k cr.total_count cr.container_idxs) (sym named) fair

    pub create_claims-Good :
        (prefix namespace : GoString) (comp_map : GoMap CompositionRequest) (names : List GoString)
        (s : State)
        → All (IsFairEntry as_int64 pod) comp_map
        → IfReturns Good (create_claims max_len create prefix namespace comp_map names s)
    unfolding create_claims Good AllServed
    create_claims-Good prefix namespace comp_map [] s h = tt
    create_claims-Good prefix namespace comp_map (res_name ∷ names) s h =
        elim (Option-cases (lookup res_name comp_map)) [
          | inl e ↦ rw (e, create_claims) tt
          | inr (cr, e) ↦
              let name = composition_template_name prefix cr.device_class_name in
              rw (e, create_claims)
                (IfReturns-bind (λ _. Unit) Good
                  (build_claim_spec max_len cr.device_class_name cr.total_count) _ (IfReturns-any _)
                  λ spec _. unless_failed-Good (create _ s) _ _ λ s'.
                    IfReturns-bind Good Good
                      (create_claims max_len create prefix namespace comp_map names s') _
                      (create_claims-Good prefix namespace comp_map names s' h)
                      λ rest good.
                        with_claim-Good (claim_of max_len create name cr) rest
                          (fair_claim res_name name cr
                            (All-lookup (IsFairEntry as_int64 pod) res_name comp_map cr h e))
                          good)
        ]

  refs_from-add :
      (name : GoString) (i a b : ℕ)
      → refs_from name i (a + b) ≡ refs_from name i a ++ refs_from name (i + a) b
  unfolding refs_from
  refs_from-add name i zero b =
      let e : 0 + b ≡ b = omega arith in
      let e' : i + 0 ≡ i = omega arith in
      ap (refs_from name i) e ∙ sym (ap (λ k. refs_from name k b) e')
  refs_from-add name i (suc a) b =
      let e : suc a + b ≡ suc (a + b) = omega arith in
      let e' : suc i + a ≡ i + suc a = omega arith in
      ap (refs_from name i) e
      ∙ ap (◌∷◌ (record { name = name; request = pair_name i })) (
          refs_from-add name (suc i) a b
          ∙ ap (λ k. refs_from name (suc i) a ++ refs_from name k b) e')

  -- the references of all the containers
  pub all_refs : List (ℕ × (Container Q × List ClaimRef)) → List ClaimRef
  all_refs [] = []
  all_refs ((i, (c, refs)) ∷ rest) = refs ++ all_refs rest

  pub container_refs_lem :
      (name res_name : GoString) (p : ℕ) (is : List ℕ)
      → All (HasContainer as_int64 pod) is
      → Returns
          (λ refs. all_refs refs ≡ refs_from name p (demand as_int64 pod res_name is))
          (container_refs as_int64 pod name res_name p is)
  unfolding container_refs all_refs demand refs_from count_in
  container_refs_lem name res_name p [] h = refl
  container_refs_lem name res_name p (i ∷ is) ((c, e), h) =
      rw (e, container_refs)
        (let k = request_count as_int64 pod res_name c in
          Returns-bind
            (λ refs. all_refs refs ≡ refs_from name (p + k) (demand as_int64 pod res_name is)) _
            (container_refs as_int64 pod name res_name (p + k) is) _
            (container_refs_lem name res_name (p + k) is h)
            λ rest q.
              ap (◌++◌ (refs_from name p k)) q
              ∙ sym (refs_from-add name p k (demand as_int64 pod res_name is)))
