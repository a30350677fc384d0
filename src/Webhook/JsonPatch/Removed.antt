-- ===== src/Webhook/JsonPatch/Removed.antt =====
-- The removing operations of pkg/webhook/mutator.go, applied.
use composite_dra_driver.Prelude.{
  ℕ, ◌≡◌, refl, sym, ap, ◌∙◌, arith, Bool, true, List, [], ◌∷◌, ◌++◌, Option, none, some, ℤ,
  GoString, codes, GoMap, lookup, delete, lookup-delete, has, get_elem?, str_eq, str_eq_iff,
  str_eq_refl, All, Bool-cases, inl, inr,
}
use composite_dra_driver.Prelude.Run.{returns, >>=-eq-returns}
use composite_dra_driver.Webhook.{Container, Pod, PatchOp}
use composite_dra_driver.Webhook.Escape.{json_patch_escape}
use composite_dra_driver.Webhook.Requests.{ResourceMatch}
use composite_dra_driver.Webhook.Requests.Requested.{HasRequest}
use composite_dra_driver.Webhook.Patches.{container_path, remove_op, limit_ops, remove_ops}
use composite_dra_driver.Webhook.JsonPatch.{apply_all}
use composite_dra_driver.Webhook.JsonPatch.Updates.{
  get_elem?-set_at, set_at-set_at, index-lt, with_container, apply_all-append, apply_all-cons,
  remove_request-op, remove_limit-op,
}
use composite_dra_driver.Webhook.JsonPatch.Names.{name_of}
use composite_dra_driver.Webhook.JsonPatch.Reduced.{
  IsWithout, AreReduced, AreReduced-with_container,
}

module _ {Q : Type 0} where
  -- what one match removes of a container that has its resource
  remove_match :
      (as_int64 : Q → ℤ × Bool) (pod : Pod Q) (i : ℕ) (k : GoString) (q : Q) (d : Container Q)
      (mid : Pod Q) (limit : Option Q)
      → get_elem? mid.containers i ≡ some d
      → lookup k d.requests ≡ some q
      → lookup k d.limits ≡ limit
      → (d' : Container Q) × (apply_all
            (remove_op (container_path i (codes "requests/" ++ json_patch_escape k))
              ∷ limit_ops as_int64 pod i (json_patch_escape k) limit)
            mid
          ≡ some (with_container i d' mid))
        × IsWithout k d d'
  unfolding apply_all limit_ops
  remove_match as_int64 pod i k q d mid none at_ l absent = (
    record d { requests = delete k d.requests },
    apply_all-cons _ [] mid _ (remove_request-op i k q d mid at_ l),
    record {
      requests = λ j. lookup-delete k j d.requests;
      limits = λ j. elim (Bool-cases (str_eq k j)) [
        | inl same ↦ let names : k ≡ j = (str_eq_iff k j).0 same in rw same (rw names at absent)
        | inr other ↦ rw other refl
      ];
      claims = refl;
    },
  )
  remove_match as_int64 pod i k q d mid (some p) at_ l found =
      let e : Container Q = record d { requests = delete k d.requests } in
      let f : Container Q = record e { limits = delete k e.limits } in
      let here : get_elem? (with_container i e mid).containers i ≡ some e =
        get_elem?-set_at i i e mid.containers (index-lt i d mid.containers at_) ∙ ground arith in
      (
        f,
        apply_all-cons _ (limit_ops as_int64 pod i (json_patch_escape k) (some p)) mid _
              (remove_request-op i k q d mid at_ l)
            ∙ apply_all-cons _ [] _ _ (remove_limit-op i k p e (with_container i e mid) here found)
            ∙ ap (λ cs. some (record mid { containers = cs })) (set_at-set_at i e f mid.containers),
        record {
          requests = λ j. lookup-delete k j d.requests;
          limits = λ j. lookup-delete k j d.limits;
          claims = refl;
        },
      )

  -- Removing the matches from a pod in which some are removed already.
  pub remove_ops-applied :
      (as_int64 : Q → ℤ × Bool) (pod : Pod Q) (notes : Option (GoMap GoString))
      (ms : List ResourceMatch) (removed : List GoString) (mid : Pod Q) (os : List PatchOp)
      → AreReduced notes removed pod mid
      → All (HasRequest pod) ms
      → remove_ops as_int64 pod ms removed ≡ returns os
      → (pod' : Pod Q) × (apply_all os mid ≡ some pod')
        × ((gone : List GoString) × AreReduced notes gone pod pod'
            × ((s : GoString) → has s removed ≡ true → has s gone ≡ true)
            × All (λ m. has (name_of m) gone ≡ true) ms)
  unfolding remove_ops apply_all has
  remove_ops-applied as_int64 pod notes [] removed mid os r h e =
      (mid, (let q : [] ≡ os = cc in rw (← q) refl), (removed, r, λ s t. t, tt))
  remove_ops-applied as_int64 pod notes (m ∷ ms) removed mid os r ((c, at_, (q, l)), h) e =
      let name = name_of m in
      elim (Bool-cases (has name removed)) [
        | inl known ↦
            let (pod', applied, (gone, reduced, more, all)) =
              remove_ops-applied as_int64 pod notes ms removed mid os r h
                (rw (known, remove_ops) at e) in
            (pod', applied, (gone, reduced, more, (more name known, all)))
        | inr fresh ↦
            let (d, found, reduced) = r.containers m.container_idx c at_ in
            let kept : lookup m.resource_name d.requests ≡ some q =
              reduced.requests m.resource_name ∙ rw fresh l in
            let bound : lookup m.resource_name d.limits ≡ lookup m.resource_name c.limits =
              reduced.limits m.resource_name ∙ rw fresh refl in
            let (d', first, without) =
              remove_match as_int64 pod m.container_idx m.resource_name q d mid _ found kept
                bound in
            let (rest, e', last) =
              >>=-eq-returns (remove_ops as_int64 pod ms (name ∷ removed)) _
                (rw (fresh, remove_ops, at_) at e) in
            let (pod', applied, (gone, reduced', more, all)) =
              remove_ops-applied as_int64 pod notes ms (name ∷ removed)
                (with_container m.container_idx d' mid) rest
                (AreReduced-with_container notes removed m.container_idx m.resource_name pod mid d
                  d' r found without)
                h e' in
            let escaped = json_patch_escape m.resource_name in
            let ops : List PatchOp =
              remove_op (container_path m.container_idx (codes "requests/" ++ escaped))
              ∷ limit_ops as_int64 pod m.container_idx escaped (lookup m.resource_name c.limits) in
            (
              pod',
              (let q : ops ++ rest ≡ os = cc in
                  ap (λ l. apply_all l mid) (sym q)
                  ∙ (apply_all-append ops rest mid _ first ∙ applied)),
              (
                gone,
                reduced',
                λ s known. more s (ground arith),
                (more name (rw (str_eq_refl name) refl), all),
              ),
            )
      ]
