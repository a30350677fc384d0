-- ===== src/Plugin/Unprepare/Retry.antt =====
-- When unpreparing reports success, and what a second attempt does.
use composite_dra_driver.Prelude.{
  ◌≡◌, ◌↔◌, refl, ap, ◌∙◌, arith, lookup, List, [], ◌∷◌, ◌++◌, map, concat, Option, none, lookup_or,
  delete, lookup_or-none, lookup-delete, str_eq_refl, All, Option-cases, inl, inr,
}
use composite_dra_driver.Prelude.Result.{ok}
use composite_dra_driver.Plugin.{
  ShadowRecord, CompositePlugin, Call, unprepare_via_grpc, delete_claim, delete_for_composite,
}
use composite_dra_driver.Plugin.Unprepare.{
  NamespacedObject, undo_calls, failure, errors, report, orphan_calls, unprepare_claim,
}

undo_calls-concat :
    (shadows : List ShadowRecord)
    → undo_calls shadows
      ≡ concat (
          map
            (λ (sr : ShadowRecord).
              unprepare_via_grpc sr.driver_name sr.info
              ∷ delete_claim sr.info.namespace sr.info.name
              ∷ [])
            shadows)
unfolding undo_calls
undo_calls-concat [] = refl
undo_calls-concat (sr ∷ srs) =
    ap
      (λ cs.
        unprepare_via_grpc sr.driver_name sr.info
        ∷ delete_claim sr.info.namespace sr.info.name
        ∷ cs)
      (undo_calls-concat srs)

module _ {ℓ} {E : Type ℓ} where
  report-errors :
      (answer : Call → Option E) (cs : List Call)
      → (report answer (errors answer cs) ≡ ok tt) ↔ All (λ c. answer c ≡ none) cs
  unfolding report errors failure
  report-errors answer [] = (λ h. tt, λ h. refl)
  report-errors answer (c ∷ cs) = elim (Option-cases (answer c)) [
    | inl e ↦
        rw (e, errors)
          ((λ h. (refl, (report-errors answer cs).0 h)), (λ h. (report-errors answer cs).1 h.1))
    | inr (x, e) ↦ rw (e, errors) ((λ h. cc), (λ h. cc))
  ]

  -- the result and the calls depend on the claim's records only
  pub unprepare_claim-records :
      (answer : Call → Option E) (fault : Option E) (claim : NamespacedObject)
      (p q : CompositePlugin)
      → lookup claim.uid p.shadow_claims ≡ lookup claim.uid q.shadow_claims
      → (unprepare_claim answer fault claim p).0 ≡ (unprepare_claim answer fault claim q).0
  unfolding unprepare_claim lookup_or
  unprepare_claim-records answer fault claim p q e =
      let same : lookup_or [] claim.uid p.shadow_claims ≡ lookup_or [] claim.uid q.shadow_claims =
        ground arith in
      ap
        (λ shadows. (
          report answer (errors answer (undo_calls shadows)),
          undo_calls shadows ++ orphan_calls answer claim shadows,
        ))
        same

  -- what undoing a shadow claim takes
  abbrev pub IsUndone : (Call → Option E) → ShadowRecord → Type ℓ
  IsUndone answer sr =
      (answer (unprepare_via_grpc sr.driver_name sr.info) ≡ none)
      × (answer (delete_claim sr.info.namespace sr.info.name) ≡ none)

  undo_calls-AllUndone :
      (answer : Call → Option E) (shadows : List ShadowRecord)
      → All (λ c. answer c ≡ none) (undo_calls shadows) ↔ All (IsUndone answer) shadows
  unfolding undo_calls
  undo_calls-AllUndone answer [] = (λ h. h, λ h. h)
  undo_calls-AllUndone answer (sr ∷ srs) =
      let ih = undo_calls-AllUndone answer srs in
      ((λ (u, (d, h)). ((u, d), ih.0 h)), (λ ((u, d), h). (u, (d, ih.1 h))))

  -- Unpreparing a claim calls, for each shadow claim that the plugin has recorded and in their
  -- order, its driver to unprepare it and then the API server to delete it, also after a call that
  -- failed, and where none is recorded it deletes the claims with the composite claim's label; it
  -- reports success exactly when for each recorded shadow claim both calls succeed.
  pub unprepare_claim-ok :
      (answer : Call → Option E) (fault : Option E) (claim : NamespacedObject) (p : CompositePlugin)
      → (let shadows = lookup_or [] claim.uid p.shadow_claims in
          let outcome = (unprepare_claim answer fault claim p).0 in
          ((outcome.0 ≡ ok tt) ↔ All (IsUndone answer) shadows)
          × (outcome.1
              ≡ concat (
                  map
                    (λ (sr : ShadowRecord).
                      unprepare_via_grpc sr.driver_name sr.info
                      ∷ delete_claim sr.info.namespace sr.info.name
                      ∷ [])
                    shadows)
                ++ (elim shadows [
                  | [] ↦ delete_for_composite claim.namespace claim.uid ∷ []
                  | sr ∷ srs ↦ []
                ])))
  unfolding unprepare_claim orphan_calls
  unprepare_claim-ok answer fault claim p =
      let shadows = lookup_or [] claim.uid p.shadow_claims in
      let reports = report-errors answer (undo_calls shadows) in
      let undone = undo_calls-AllUndone answer shadows in
      (
        ((λ h. undone.0 (reports.0 h)), (λ h. reports.1 (undone.1 h))),
        ap (λ cs. cs ++ orphan_calls answer claim shadows) (undo_calls-concat shadows)
            ∙ orphaned shadows _,
      )
    where
      orphaned :
          (shadows : List ShadowRecord) (cs : List Call)
          → cs ++ orphan_calls answer claim shadows
            ≡ cs ++ (elim shadows [
              | [] ↦ delete_for_composite claim.namespace claim.uid ∷ []
              | sr ∷ srs ↦ []
            ])
      orphaned [] cs = refl
      orphaned (sr ∷ srs) cs = refl

  -- After an attempt to unprepare a claim, whatever failed in it, a second attempt calls no driver: it
  -- only deletes the claims with the composite claim's label, and reports success.
  pub unprepare_claim-retry :
      (answer answer' : Call → Option E) (fault fault' : Option E) (claim : NamespacedObject)
      (p : CompositePlugin)
      → (unprepare_claim answer' fault' claim (unprepare_claim answer fault claim p).1).0
        ≡ (ok tt, delete_for_composite claim.namespace claim.uid ∷ [])
  unfolding unprepare_claim orphan_calls report errors undo_calls
  unprepare_claim-retry answer answer' fault fault' claim p =
      let gone : lookup_or [] claim.uid (delete claim.uid p.shadow_claims) ≡ [] =
        lookup_or-none [] claim.uid _
          (lookup-delete claim.uid claim.uid p.shadow_claims ∙ rw (str_eq_refl claim.uid) refl) in
      rw gone refl
