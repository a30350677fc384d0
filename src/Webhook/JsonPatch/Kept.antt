-- ===== src/Webhook/JsonPatch/Kept.antt =====
-- A pod that lost nothing, and the operations that keep what it has.
use composite_dra_driver.Prelude.{
  ℕ, ◌≡◌, refl, ◌∙◌, arith, List, ◌++◌, Option, some, get_elem?, Bool-cases, inl, inr, ◌==◌,
}
use composite_dra_driver.Webhook.{Container, Pod, PatchOp}
use composite_dra_driver.Webhook.JsonPatch.{apply_all}
use composite_dra_driver.Webhook.JsonPatch.Updates.{
  get_elem?-set_at, index-lt, with_container, apply_all-append,
}

abbrev pub IsSome {ℓ} : {A : Type ℓ} → Option A → Type ℓ
IsSome {A = A} x = (a : A) × (x ≡ some a)

module _ {Q : Type 0} where
  -- The container `d` has the requests and limits of `c`, and claims where `c` has.
  pub record IsKept (c d : Container Q) : Type 0 where
    pub requests : d.requests ≡ c.requests
    pub limits : d.limits ≡ c.limits
    pub claims : IsSome c.claims → IsSome d.claims

  pub record AreKept (pod pod' : Pod Q) : Type 0 where
    pub annotations : pod'.annotations ≡ pod.annotations
    pub resource_claims : IsSome pod.resource_claims → IsSome pod'.resource_claims
    pub containers :
        (i : ℕ) (c : Container Q)
        → get_elem? pod.containers i ≡ some c
        → (d : Container Q) × (get_elem? pod'.containers i ≡ some d) × IsKept c d

  pub IsKept-refl : (c : Container Q) → IsKept c c
  IsKept-refl c = record { requests = refl; limits = refl; claims = λ h. h }

  pub AreKept-refl : (pod : Pod Q) → AreKept pod pod
  AreKept-refl pod = record {
    annotations = refl;
    resource_claims = λ h. h;
    containers = λ i c h. (c, h, IsKept-refl c);
  }

  pub AreKept-trans : (p q r : Pod Q) → AreKept p q → AreKept q r → AreKept p r
  AreKept-trans p q r f g = record {
    annotations = g.annotations ∙ f.annotations;
    resource_claims = λ h. g.resource_claims (f.resource_claims h);
    containers = λ i c h.
        let (d, at_, kept) = f.containers i c h in
        let (e, at', kept') = g.containers i d at_ in
        (
          e,
          at',
          record {
            requests = kept'.requests ∙ kept.requests;
            limits = kept'.limits ∙ kept.limits;
            claims = λ s. kept'.claims (kept.claims s);
          },
        );
  }

  pub AreKept-with_container :
      (i : ℕ) (c d : Container Q) (pod : Pod Q)
      → get_elem? pod.containers i ≡ some c
      → IsKept c d
      → AreKept pod (with_container i d pod)
  AreKept-with_container i c d pod h kept = record {
    annotations = refl;
    resource_claims = λ s. s;
    containers = λ j e found.
        let put = get_elem?-set_at i j d pod.containers (index-lt i c pod.containers h) in
        elim (Bool-cases (i == j)) [
          | inl eq_ ↦
              let same : i ≡ j = ground arith in
              let here : get_elem? pod.containers j ≡ some c = rw same at h in
              let both : c ≡ e = cc in (d, put ∙ rw eq_ refl, rw both at kept)
          | inr ne_ ↦ (e, put ∙ rw ne_ found, IsKept-refl e)
        ];
  }

  -- operations that a pod accepts and that keep what it has
  abbrev pub Accepts : Pod Q → List PatchOp → Type 0
  Accepts pod os = (pod' : Pod Q) × (apply_all os pod ≡ some pod') × AreKept pod pod'

  pub Accepts-append :
      (pod : Pod Q) (os ps : List PatchOp)
      → Accepts pod os
      → ((pod' : Pod Q) → AreKept pod pod' → Accepts pod' ps)
      → Accepts pod (os ++ ps)
  Accepts-append pod os ps (mid, applied, kept) next =
      let (pod', applied', kept') = next mid kept in
      (
        pod',
        apply_all-append os ps pod mid applied ∙ applied',
        AreKept-trans pod mid pod' kept kept',
      )

  -- The pod `mid` has claims where `pod` has.
  pub record IsBacked (pod mid : Pod Q) : Type 0 where
    pub resource_claims : IsSome pod.resource_claims → IsSome mid.resource_claims
    pub containers :
        (i : ℕ) (c : Container Q)
        → get_elem? pod.containers i ≡ some c
        → (d : Container Q) × (get_elem? mid.containers i ≡ some d)
          × (IsSome c.claims → IsSome d.claims)

  pub IsBacked-AreKept : (p q r : Pod Q) → IsBacked p q → AreKept q r → IsBacked p r
  IsBacked-AreKept p q r f g = record {
    resource_claims = λ h. g.resource_claims (f.resource_claims h);
    containers = λ i c h.
        let (d, at_, kept) = f.containers i c h in
        let (e, at', kept') = g.containers i d at_ in (e, at', λ s. kept'.claims (kept s));
  }
