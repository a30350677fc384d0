-- ===== src/Webhook/JsonPatch/Added.antt =====
-- The adding operations of pkg/webhook/mutator.go, applied.
use composite_dra_driver.Prelude.{
  ℕ, zero, suc, ◌+◌, ◌≡◌, refl, ap, ◌∙◌, arith, Bool, List, [], ◌∷◌, ◌++◌, Option, none, some, ℤ,
  GoString, codes, get_elem?, str_eq, split_slash, All,
}
use composite_dra_driver.Prelude.Run.{returns, deref, >>=-eq-returns}
use composite_dra_driver.Webhook.{
  ClaimRef, PodResourceClaim, Container, Pod, PatchOp, claim_refs, claim_ref,
}
use composite_dra_driver.Webhook.Patches.{
  ClaimInfo, claim_name_of, container_path, append_ops, container_ops, pod_claim_patch,
  container_refs, refs_from, request_count, refs_ops, claim_ops,
}
use composite_dra_driver.Webhook.JsonPatch.{apply_op, apply_all, add_at, add_ref, tokens, locate}
use composite_dra_driver.Webhook.Escape.{unescape}
use composite_dra_driver.Webhook.JsonPatch.Paths.{locate-claims, locate-claims_end}
use composite_dra_driver.Webhook.JsonPatch.Updates.{
  get_elem?-set_at, index-lt, with_container, in_container-set_at, apply_all-cons,
}
use composite_dra_driver.Webhook.JsonPatch.Kept.{
  IsSome, IsKept, AreKept, IsKept-refl, AreKept-refl, AreKept-trans, AreKept-with_container,
  Accepts, Accepts-append, IsBacked, IsBacked-AreKept,
}

deref-eq {ℓ} : {A : Type ℓ} (x : Option A) (a : A) → deref x ≡ returns a → x ≡ some a
deref-eq none a e = cc
deref-eq (some b) a e = (let q : b ≡ a = cc in ap some q)

module _ {Q : Type 0} where
  add_claims-op :
      (i : ℕ) (rs : List ClaimRef) (c : Container Q) (pod : Pod Q)
      → get_elem? pod.containers i ≡ some c
      → apply_op
          (record {
            op = codes "add";
            path = container_path i (codes "claims");
            value = claim_refs rs;
          })
          pod
        ≡ some (with_container i (record c { claims = some rs }) pod)
  unfolding apply_op codes str_eq add_at
  add_claims-op i rs c pod h = rw (locate-claims i) (
      in_container-set_at i (λ c. some (record c { claims = some rs })) c
        (record c { claims = some rs }) pod h refl)

  add_claim-op :
      (i : ℕ) (r : ClaimRef) (rs : List ClaimRef) (c : Container Q) (pod : Pod Q)
      → get_elem? pod.containers i ≡ some c
      → c.claims ≡ some rs
      → apply_op
          (record {
            op = codes "add";
            path = container_path i (codes "claims/-");
            value = claim_ref r;
          })
          pod
        ≡ some (with_container i (record c { claims = some (rs ++ r ∷ []) }) pod)
  unfolding apply_op codes str_eq add_at add_ref
  add_claim-op i r rs c pod h l = rw (locate-claims_end i) (
      in_container-set_at i (add_ref r) c (record c { claims = some (rs ++ r ∷ []) }) pod h
        (rw l refl))

  append_ops-Accepts :
      (i : ℕ) (refs : List ClaimRef) (c : Container Q) (pod : Pod Q)
      → get_elem? pod.containers i ≡ some c
      → IsSome c.claims
      → Accepts pod (append_ops i refs)
  unfolding append_ops apply_all
  append_ops-Accepts i [] c pod h s = (pod, refl, AreKept-refl pod)
  append_ops-Accepts i (r ∷ refs) c pod h (rs, l) =
      let d : Container Q = record c { claims = some (rs ++ r ∷ []) } in
      let kept : IsKept c d = record {
        requests = refl;
        limits = refl;
        claims = λ s. (rs ++ r ∷ [], refl);
      } in
      let mid = with_container i d pod in
      let here : get_elem? mid.containers i ≡ some d =
        get_elem?-set_at i i d pod.containers (index-lt i c pod.containers h) ∙ ground arith in
      let (pod', applied, more) = append_ops-Accepts i refs d mid here (rs ++ r ∷ [], refl) in
      (
        pod',
        apply_all-cons _ (append_ops i refs) pod mid (add_claim-op i r rs c pod h l) ∙ applied,
        AreKept-trans pod mid pod' (AreKept-with_container i c d pod h kept) more,
      )

  container_ops-Accepts :
      (i : ℕ) (claims : Option (List ClaimRef)) (refs : List ClaimRef) (c : Container Q)
      (pod : Pod Q)
      → get_elem? pod.containers i ≡ some c
      → (IsSome claims → IsSome c.claims)
      → Accepts pod (container_ops i claims refs)
  unfolding container_ops apply_all
  container_ops-Accepts i none refs c pod h s =
      let d : Container Q = record c { claims = some refs } in
      (
        with_container i d pod,
        apply_all-cons _ [] pod _ (add_claims-op i refs c pod h),
        AreKept-with_container i c d pod h
            (record { requests = refl; limits = refl; claims = λ s. (refs, refl) }),
      )
  container_ops-Accepts i (some claims) refs c pod h s =
      append_ops-Accepts i refs c pod h (s (claims, refl))

  module _ (as_int64 : Q → ℤ × Bool) (pod : Pod Q) where
    abbrev IsOf : ℕ × (Container Q × List ClaimRef) → Type 0
    IsOf (i, (c, refs)) = get_elem? pod.containers i ≡ some c

    refs_ops-Accepts :
        (xs : List (ℕ × (Container Q × List ClaimRef))) (mid : Pod Q)
        → All IsOf xs
        → IsBacked pod mid
        → Accepts mid (refs_ops as_int64 pod xs)
    unfolding refs_ops apply_all
    refs_ops-Accepts [] mid h backed = (mid, refl, AreKept-refl mid)
    refs_ops-Accepts ((i, (c, refs)) ∷ xs) mid (at_, h) backed =
        let (d, found, has_claims) = backed.containers i c at_ in
        Accepts-append mid _ _ (container_ops-Accepts i c.claims refs d mid found has_claims)
          λ pod' kept. refs_ops-Accepts xs pod' h (IsBacked-AreKept pod mid pod' backed kept)

    container_refs-AllOf :
        (name res_name : GoString) (pair_idx : ℕ) (is : List ℕ)
        (xs : List (ℕ × (Container Q × List ClaimRef)))
        → container_refs as_int64 pod name res_name pair_idx is ≡ returns xs
        → All IsOf xs
    unfolding container_refs
    container_refs-AllOf name res_name pair_idx [] xs e = (let q : [] ≡ xs = cc in rw (← q) tt)
    container_refs-AllOf name res_name pair_idx (i ∷ is) xs e =
        let (c, found, e') = >>=-eq-returns (deref (get_elem? pod.containers i)) _ e in
        let (rest, e'', last) =
          >>=-eq-returns
            (container_refs as_int64 pod name res_name
              (pair_idx + request_count as_int64 pod res_name c) is)
            _ e' in
        let q : (i, (c, refs_from name pair_idx (request_count as_int64 pod res_name c))) ∷ rest
            ≡ xs =
          cc in
        rw (← q) (
          deref-eq (get_elem? pod.containers i) c found,
          container_refs-AllOf name res_name (pair_idx + request_count as_int64 pod res_name c) is
              rest e'',
        )

    pod_claim_patch-op :
        (n : ℕ) (claims : Option (List PodResourceClaim)) (ref : PodResourceClaim) (mid : Pod Q)
        → (IsSome claims → IsSome mid.resource_claims)
        → ((j : ℕ) → n ≡ suc j → IsSome mid.resource_claims)
        → (cs : List PodResourceClaim) × (apply_op (pod_claim_patch n claims ref) mid
            ≡ some (record mid { resource_claims = some cs }))
    unfolding apply_op pod_claim_patch codes str_eq add_at locate tokens split_slash unescape
    pod_claim_patch-op zero none ref mid h k = (ref ∷ [], refl)
    pod_claim_patch-op (suc n) none ref mid h k =
        let (cs, l) = k n refl in (cs ++ ref ∷ [], rw l refl)
    pod_claim_patch-op n (some claims) ref mid h k =
        let (cs, l) = h (claims, refl) in (cs ++ ref ∷ [], rw l refl)

    pub claim_ops-Accepts :
        (n : ℕ) (claims : List ClaimInfo) (mid : Pod Q) (os : List PatchOp)
        → IsBacked pod mid
        → ((j : ℕ) → n ≡ suc j → IsSome mid.resource_claims)
        → claim_ops as_int64 pod n claims ≡ returns os
        → Accepts mid os
    unfolding claim_ops apply_all
    claim_ops-Accepts n [] mid os backed first e =
        (let q : [] ≡ os = cc in rw (← q) (mid, refl, AreKept-refl mid))
    claim_ops-Accepts n (claim ∷ claims) mid os backed first e =
        let name = claim_name_of claim.device_class_name in
        let ref : PodResourceClaim = record {
          name = name;
          resource_claim_template_name = some claim.template_name;
        } in
        let (refs, e', e'') =
          >>=-eq-returns
            (container_refs as_int64 pod name claim.resource_name 0 claim.container_idxs) _ e in
        let (rest, f, last) = >>=-eq-returns (claim_ops as_int64 pod (suc n) claims) _ e'' in
        let (cs, op) =
          pod_claim_patch-op n pod.resource_claims ref mid backed.resource_claims first in
        let next = record mid { resource_claims = some cs } in
        let kept : AreKept mid next = record {
          annotations = refl;
          resource_claims = λ s. (cs, refl);
          containers = λ i c h. (c, h, IsKept-refl c);
        } in
        let served =
          Accepts-append next (refs_ops as_int64 pod refs) rest
            (refs_ops-Accepts refs next
              (container_refs-AllOf name claim.resource_name 0 claim.container_idxs refs e')
              (IsBacked-AreKept pod mid next backed kept))
            λ pod' more.
              claim_ops-Accepts (suc n) claims pod' rest
                (IsBacked-AreKept pod next pod' (IsBacked-AreKept pod mid next backed kept) more)
                (λ j s. more.resource_claims (cs, refl)) f in
        let (pod', applied, all) = served in
        let q : pod_claim_patch n pod.resource_claims ref ∷ (refs_ops as_int64 pod refs ++ rest)
            ≡ os =
          cc in
        rw (← q)
          (pod', apply_all-cons _ _ mid next op ∙ applied, AreKept-trans mid next pod' kept all)
