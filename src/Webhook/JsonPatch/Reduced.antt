-- ===== src/Webhook/JsonPatch/Reduced.antt =====
-- A pod without the resources that are removed.
use composite_dra_driver.Prelude.{
  ℕ, ◌≡◌, ◌≢◌, refl, sym, ◌∙◌, arith, false, List, ◌∷◌, Option, none, some, GoString, GoMap, lookup,
  has, get_elem?, subst, str_eq, Bool-cases, inl, inr, ◌==◌, if◌then◌else◌,
}
use composite_dra_driver.Webhook.{Container, Pod}
use composite_dra_driver.Webhook.JsonPatch.Updates.{get_elem?-set_at, index-lt, with_container}
use composite_dra_driver.Webhook.JsonPatch.Names.{removed_name, has-removed_name}

module _ {Q : Type 0} where
  -- The container `d` is `c` without the resource `k`.
  pub record IsWithout (k : GoString) (c d : Container Q) : Type 0 where
    pub requests :
        (j : GoString) → lookup j d.requests ≡ (if str_eq k j then none else lookup j c.requests)
    pub limits :
        (j : GoString) → lookup j d.limits ≡ (if str_eq k j then none else lookup j c.limits)
    pub claims : d.claims ≡ c.claims

  -- The container `d` is `c`, which has the index `i`, without the resources that are removed.
  pub record IsReduced (removed : List GoString) (i : ℕ) (c d : Container Q) : Type 0 where
    pub requests :
        (k : GoString)
        → lookup k d.requests
          ≡ (if has (removed_name i k) removed then none else lookup k c.requests)
    pub limits :
        (k : GoString)
        → lookup k d.limits ≡ (if has (removed_name i k) removed then none else lookup k c.limits)
    pub claims : d.claims ≡ c.claims

  pub record AreReduced (notes : Option (GoMap GoString)) (removed : List GoString)
      (pod pod' : Pod Q) : Type 0 where
    pub annotations : pod'.annotations ≡ notes
    pub resource_claims : pod'.resource_claims ≡ pod.resource_claims
    pub containers :
        (i : ℕ) (c : Container Q)
        → get_elem? pod.containers i ≡ some c
        → (d : Container Q) × (get_elem? pod'.containers i ≡ some d) × IsReduced removed i c d

  removed_twice :
      (removed : List GoString) (i : ℕ) (k j : GoString) (x y z : Option Q)
      → x ≡ (if str_eq k j then none else y)
      → y ≡ (if has (removed_name i j) removed then none else z)
      → x ≡ (if has (removed_name i j) (removed_name i k ∷ removed) then none else z)
  removed_twice removed i k j x y z a b =
      let n = has-removed_name i i k j removed in rw n (ground arith)

  removed_other :
      (removed : List GoString) (i j : ℕ) (k l : GoString) (x z : Option Q)
      → i ≢ j
      → x ≡ (if has (removed_name j l) removed then none else z)
      → x ≡ (if has (removed_name j l) (removed_name i k ∷ removed) then none else z)
  removed_other removed i j k l x z ne b =
      let n = has-removed_name i j k l removed in
      let no : (i == j) ≡ false = ground arith in rw (n, no) b

  IsReduced-IsWithout :
      (removed : List GoString) (i : ℕ) (k : GoString) (c d d' : Container Q)
      → IsReduced removed i c d
      → IsWithout k d d'
      → IsReduced (removed_name i k ∷ removed) i c d'
  IsReduced-IsWithout removed i k c d d' r w = record {
    requests = λ j. removed_twice removed i k j _ _ _ (w.requests j) (r.requests j);
    limits = λ j. removed_twice removed i k j _ _ _ (w.limits j) (r.limits j);
    claims = w.claims ∙ r.claims;
  }

  IsReduced-other :
      (removed : List GoString) (i j : ℕ) (k : GoString) (c d : Container Q)
      → i ≢ j
      → IsReduced removed j c d
      → IsReduced (removed_name i k ∷ removed) j c d
  IsReduced-other removed i j k c d ne r = record {
    requests = λ l. removed_other removed i j k l _ _ ne (r.requests l);
    limits = λ l. removed_other removed i j k l _ _ ne (r.limits l);
    claims = r.claims;
  }

  pub AreReduced-with_container :
      (notes : Option (GoMap GoString)) (removed : List GoString) (i : ℕ) (k : GoString)
      (pod mid : Pod Q) (d d' : Container Q)
      → AreReduced notes removed pod mid
      → get_elem? mid.containers i ≡ some d
      → IsWithout k d d'
      → AreReduced notes (removed_name i k ∷ removed) pod (with_container i d' mid)
  AreReduced-with_container notes removed i k pod mid d d' r at_ w = record {
    annotations = r.annotations;
    resource_claims = r.resource_claims;
    containers = λ j c h.
        let (e, found, reduced) = r.containers j c h in
        let put = get_elem?-set_at i j d' mid.containers (index-lt i d mid.containers at_) in
        elim (Bool-cases (i == j)) [
          | inl eq_ ↦
              let same : i ≡ j = ground arith in
              let here : get_elem? mid.containers j ≡ some d = rw same at at_ in
              let both : e ≡ d = cc in
              (
                d',
                put ∙ rw eq_ refl,
                subst (λ n. IsReduced (removed_name n k ∷ removed) j c d') (sym same)
                    (IsReduced-IsWithout removed j k c d d' (rw both at reduced) w),
              )
          | inr ne_ ↦
              (e, put ∙ rw ne_ found, IsReduced-other removed i j k c e (ground arith) reduced)
        ];
  }
