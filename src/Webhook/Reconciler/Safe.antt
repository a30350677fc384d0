-- ===== src/Webhook/Reconciler/Safe.antt =====
-- No template that a live pod refers to is deleted.
use composite_dra_driver.Prelude.{
  ◌≡◌, ◌≢◌, refl, ap, subst, true, Elem→has, Elem-append_left, Elem-append_right, Option-cases, ◌∙◌,
  arith, false, ◌||◌, List, [], ◌∷◌, ◌++◌, Option, none, some, ℤ, lt_int, GoString, lookup_or,
  insert, has, Elem, All, All-append, All-insert, All-lookup_or, All-of_Elem, All-at, Bool-cases,
  inl, inr,
}
use composite_dra_driver.Prelude.Result.{ok}
use composite_dra_driver.Webhook.{PodResourceClaim}
use composite_dra_driver.Webhook.Reconciler.{
  TemplateItem, Namespaces, by_namespace, claim_names, referenced, expired, of_namespace,
  visit_namespaces, reconcile_templates,
}

-- no claim of the pods refers to a template of the name
abbrev pub IsUnreferenced : GoString → List (List PodResourceClaim) → Type 0
IsUnreferenced name pods =
    All
      (λ claims. All (λ (c : PodResourceClaim). c.resource_claim_template_name ≢ some name) claims)
      pods

claim_names-AllOther :
    (name : GoString) (claims : List PodResourceClaim)
    → ((c : GoString) → Elem c (claim_names claims) → c ≢ name)
    → All (λ (c : PodResourceClaim). c.resource_claim_template_name ≢ some name) claims
unfolding claim_names
claim_names-AllOther name [] h = tt
claim_names-AllOther name (c ∷ claims) h = elim (Option-cases c.resource_claim_template_name) [
  | inl e ↦ ((λ q. cc), claim_names-AllOther name claims λ d m. h d (rw (e, claim_names) m))
  | inr (n, e) ↦ (
    (λ q. (let same : n ≡ name = cc in h n (rw (e, claim_names) (inl refl)) same)),
    claim_names-AllOther name claims λ d m. h d (rw (e, claim_names) (inr m)),
  )
]

referenced-IsUnreferenced :
    (name : GoString) (pods : List (List PodResourceClaim))
    → ((c : GoString) → Elem c (referenced pods) → c ≢ name)
    → IsUnreferenced name pods
unfolding referenced
referenced-IsUnreferenced name [] h = tt
referenced-IsUnreferenced name (claims ∷ pods) h = (
  claim_names-AllOther name claims λ c m. h c (Elem-append_left c (claim_names claims) _ m),
  referenced-IsUnreferenced name pods λ c m. h c (Elem-append_right c (claim_names claims) _ m),
)

has_not :
    (name : GoString) (names : List GoString)
    → has name names ≡ false
    → (c : GoString) → Elem c names
    → c ≢ name
has_not name names h c m e =
    let there : Elem name names = subst (λ x. Elem x names) e m in
    let found : has name names ≡ true = Elem→has name names there in cc

module _ (items : List TemplateItem) where
  -- every template stands under its own namespace, and is listed
  abbrev pub IsFiled : GoString → TemplateItem → Type 0
  IsFiled ns t = (t.namespace ≡ ns) × Elem t items

  abbrev pub IsFiledEntry : GoString × List TemplateItem → Type 0
  IsFiledEntry (ns, ts) = All (IsFiled ns) ts

  by_namespace-AllFiled :
      (ts : List TemplateItem) (m : Namespaces)
      → All (λ t. Elem t items) ts
      → All IsFiledEntry m
      → All IsFiledEntry (by_namespace ts m)
  unfolding by_namespace
  by_namespace-AllFiled [] m hs h = h
  by_namespace-AllFiled (t ∷ ts) m (p, hs) h =
      let before = lookup_or [] t.namespace m in
      by_namespace-AllFiled ts (insert t.namespace (before ++ t ∷ []) m) hs (
        All-insert IsFiledEntry t.namespace (before ++ t ∷ []) m
          (All-append (IsFiled t.namespace) before (t ∷ [])
            (All-lookup_or IsFiledEntry [] t.namespace m tt h) ((refl, p), tt))
          h)

  module _ (age : TemplateItem → ℤ) (grace_period : ℤ)
      (pods : GoString → Option (List (List PodResourceClaim))) where
    -- no pod of the namespace refers to it, and it is old enough
    pub record IsExpired (t : TemplateItem) : Type 0 where
      pub listed : Elem t items
      pub live_pods : List (List PodResourceClaim)
      pub answered : pods t.namespace ≡ some live_pods
      pub unreferenced : IsUnreferenced t.name live_pods
      pub old : lt_int (age t) grace_period ≡ false

    expired-AllExpired :
        (ns : GoString) (live : List (List PodResourceClaim)) (ts : List TemplateItem)
        → pods ns ≡ some live
        → All (IsFiled ns) ts
        → All IsExpired (expired age grace_period (referenced live) ts)
    unfolding expired
    expired-AllExpired ns live [] e h = tt
    expired-AllExpired ns live (t ∷ ts) e ((at, mem), h) =
        let rest = expired-AllExpired ns live ts e h in
        elim (Bool-cases (has t.name (referenced live) || lt_int (age t) grace_period)) [
          | inl kept ↦ rw kept rest
          | inr gone ↦ rw gone (
            record {
              listed = mem;
              live_pods = live;
              answered = ap pods at ∙ e;
              unreferenced =
                  referenced-IsUnreferenced t.name live
                    (has_not t.name (referenced live) (ground arith));
              old = ground arith;
            },
            rest,
          )
        ]

    visit_namespaces-AllExpired :
        (m : Namespaces)
        → All IsFiledEntry m
        → All IsExpired (visit_namespaces age grace_period pods m)
    unfolding visit_namespaces of_namespace
    visit_namespaces-AllExpired [] h = tt
    visit_namespaces-AllExpired ((ns, ts) ∷ m) (p, h) =
        All-append IsExpired (of_namespace age grace_period ts (pods ns)) _ (one (pods ns) refl)
          (visit_namespaces-AllExpired m h)
      where
        one :
            (answer : Option (List (List PodResourceClaim)))
            → pods ns ≡ answer
            → All IsExpired (of_namespace age grace_period ts answer)
        one none e = tt
        one (some live) e = expired-AllExpired ns live ts e p

-- The templates that the reconciler deletes are listed ones, old enough, in a namespace whose pods
-- could be listed, and no claim of these pods refers to one of them by its name; this holds in any
-- order in which the namespaces are visited.
pub reconcile_templates-AllExpired :
    (E : Type 0) (age : TemplateItem → ℤ) (grace_period : ℤ)
    (pods : GoString → Option (List (List PodResourceClaim))) (visit : Namespaces → Namespaces)
    (items : List TemplateItem)
    → ((m : Namespaces) (g : GoString × List TemplateItem) → Elem g (visit m) → Elem g m)
    → All
        (IsExpired items age grace_period pods)
        (reconcile_templates age grace_period pods {E = E} visit (ok items))
unfolding reconcile_templates
reconcile_templates-AllExpired E age grace_period pods visit items order =
    let m = by_namespace items [] in
    let filed : All (IsFiledEntry items) m =
      by_namespace-AllFiled items items [] (All-of_Elem (λ t. Elem t items) items (λ t e. e)) tt in
    visit_namespaces-AllExpired items age grace_period pods (visit m) (
      All-of_Elem (IsFiledEntry items) (visit m)
        λ g e. All-at (IsFiledEntry items) m filed g (order m g e))
