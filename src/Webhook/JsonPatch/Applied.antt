-- ===== src/Webhook/JsonPatch/Applied.antt =====
-- What a patch of `buildPatches` (pkg/webhook/mutator.go) makes of its pod.
use composite_dra_driver.Prelude.{
  ◌≡◌, refl, sym, ap, ◌∙◌, arith, Bool, true, List, [], ◌∷◌, ◌++◌, Option, none, some, ℤ, GoString,
  codes, GoMap, lookup, insert, has, get_elem?, str_eq, All, split_slash,
}
use composite_dra_driver.Prelude.Run.{returns, >>=-eq-returns}
use composite_dra_driver.Webhook.{Container, Pod, PatchOp}
use composite_dra_driver.Webhook.Escape.{unescape}
use composite_dra_driver.Webhook.Requests.{ResourceMatch}
use composite_dra_driver.Webhook.Requests.Requested.{HasRequest}
use composite_dra_driver.Webhook.Patches.{
  ClaimInfo, mutated_annotation, annotation_patch, remove_ops, claim_ops, build_patches,
}
use composite_dra_driver.Webhook.JsonPatch.{apply_op, apply_all, add_at, tokens, locate}
use composite_dra_driver.Webhook.JsonPatch.Updates.{apply_all-append, apply_all-cons}
use composite_dra_driver.Webhook.JsonPatch.Names.{name_of}
use composite_dra_driver.Webhook.JsonPatch.Reduced.{AreReduced}
use composite_dra_driver.Webhook.JsonPatch.Removed.{remove_ops-applied}
use composite_dra_driver.Webhook.JsonPatch.Kept.{AreKept, IsBacked}
use composite_dra_driver.Webhook.JsonPatch.Added.{claim_ops-Accepts}

-- the annotations once the pod is marked
unfoldable pub annotated : Option (GoMap GoString) → GoMap GoString
annotated none = (mutated_annotation, codes "true") ∷ []
annotated (some annotations) = insert mutated_annotation (codes "true") annotations

module _ {Q : Type 0} where
  -- the container of a match has neither a request nor a limit of its resource
  abbrev pub IsReleased : Pod Q → ResourceMatch → Type 0
  IsReleased pod m =
      (c : Container Q) × (get_elem? pod.containers m.container_idx ≡ some c)
      × (lookup m.resource_name c.requests ≡ none)
      × (lookup m.resource_name c.limits ≡ none)

  annotation_patch-op :
      (annotations : Option (GoMap GoString)) (pod : Pod Q)
      → pod.annotations ≡ annotations
      → apply_op (annotation_patch annotations) pod
        ≡ some (record pod { annotations = some (annotated annotations) })
  unfolding apply_op annotation_patch codes str_eq add_at locate tokens split_slash unescape
      annotated
  annotation_patch-op none pod h = refl
  annotation_patch-op (some m) pod h = rw h refl

  AreReduced-nil :
      (pod : Pod Q) (notes : Option (GoMap GoString))
      → AreReduced notes [] pod (record pod { annotations = notes })
  unfolding has
  AreReduced-nil pod notes = record {
    annotations = refl;
    resource_claims = refl;
    containers =
        λ i c h. (c, h, record { requests = λ k. refl; limits = λ k. refl; claims = refl });
  }

  AreReduced-IsBacked :
      (notes : Option (GoMap GoString)) (removed : List GoString) (pod mid : Pod Q)
      → AreReduced notes removed pod mid
      → IsBacked pod mid
  AreReduced-IsBacked notes removed pod mid r = record {
    resource_claims = λ s. rw r.resource_claims s;
    containers = λ i c h.
        let (d, found, reduced) = r.containers i c h in (d, found, λ s. rw reduced.claims s);
  }

  AreReduced-IsReleased :
      (notes : Option (GoMap GoString)) (removed : List GoString) (pod mid pod' : Pod Q)
      (m : ResourceMatch)
      → AreReduced notes removed pod mid
      → AreKept mid pod'
      → HasRequest pod m
      → has (name_of m) removed ≡ true
      → IsReleased pod' m
  AreReduced-IsReleased notes removed pod mid pod' m r k (c, at_, q) gone =
      let (d, found, reduced) = r.containers m.container_idx c at_ in
      let (e, found', kept) = k.containers m.container_idx d found in
      (
        e,
        found',
        ap (lookup m.resource_name) kept.requests ∙ reduced.requests m.resource_name ∙ rw gone refl,
        ap (lookup m.resource_name) kept.limits ∙ reduced.limits m.resource_name ∙ rw gone refl,
      )

  AreReduced-AllReleased :
      (notes : Option (GoMap GoString)) (removed : List GoString) (pod mid pod' : Pod Q)
      (ms : List ResourceMatch)
      → AreReduced notes removed pod mid
      → AreKept mid pod'
      → All (HasRequest pod) ms
      → All (λ m. has (name_of m) removed ≡ true) ms
      → All (IsReleased pod') ms
  AreReduced-AllReleased notes removed pod mid pod' [] r k h g = tt
  AreReduced-AllReleased notes removed pod mid pod' (m ∷ ms) r k (p, h) (gone, g) = (
    AreReduced-IsReleased notes removed pod mid pod' m r k p gone,
    AreReduced-AllReleased notes removed pod mid pod' ms r k h g,
  )

  pub build_patches-applied :
      (as_int64 : Q → ℤ × Bool) (pod : Pod Q) (matches : List ResourceMatch)
      (claims : List ClaimInfo) (os : List PatchOp)
      → All (HasRequest pod) matches
      → build_patches as_int64 pod matches claims ≡ returns os
      → (pod' : Pod Q) × (apply_all os pod ≡ some pod')
        × (pod'.annotations ≡ some (annotated pod.annotations))
        × All (IsReleased pod') matches
  unfolding build_patches
  build_patches-applied as_int64 pod matches claims os h e =
      let notes : Option (GoMap GoString) = some (annotated pod.annotations) in
      let start : Pod Q = record pod { annotations = notes } in
      let (removes, e', e'') = >>=-eq-returns (remove_ops as_int64 pod matches []) _ e in
      let (adds, f, last) = >>=-eq-returns (claim_ops as_int64 pod 0 claims) _ e'' in
      let (mid, applied, (gone, reduced, more, all)) =
        remove_ops-applied as_int64 pod notes matches [] start removes (AreReduced-nil pod notes) h
          e' in
      let (pod', applied', kept) =
        claim_ops-Accepts as_int64 pod 0 claims mid adds
          (AreReduced-IsBacked notes gone pod mid reduced) (λ j z. absurd (omega arith)) f in
      let q : annotation_patch pod.annotations ∷ (removes ++ adds) ≡ os = cc in
      (
        pod',
        ap (λ l. apply_all l pod) (sym q)
            ∙ apply_all-cons _ _ pod start (annotation_patch-op pod.annotations pod refl)
            ∙ apply_all-append removes adds start mid applied
            ∙ applied',
        kept.annotations ∙ reduced.annotations,
        AreReduced-AllReleased notes gone pod mid pod' matches reduced kept h all,
      )
