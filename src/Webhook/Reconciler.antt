-- ===== src/Webhook/Reconciler.antt =====
-- pkg/webhook/reconciler.go: `reconcileTemplates` and `StartTemplateReconciler`. `listed` and `pods` are the answers to `List`,
-- `visit` the order in which `range byNamespace` visits the map, `age` a template's age. The result
-- is the list of the templates that it deletes.
pub mod Safe
use composite_dra_driver.Prelude.{
  ℕ, Bool, true, false, ◌||◌, List, [], ◌∷◌, ◌++◌, Option, none, some, ℤ, lt_int, Signal, on_ticks,
  GoString, GoMap, lookup_or, insert, has, if◌then◌else◌,
}
use composite_dra_driver.Prelude.Result.{Result, ok, err}
use composite_dra_driver.Webhook.{PodResourceClaim}

-- what it reads of a `ResourceClaimTemplate`
pub record TemplateItem : Type 0 where
  pub namespace : GoString
  pub name : GoString
  pub creation_timestamp : ℤ

abbrev pub Namespaces : Type 0
Namespaces = GoMap (List TemplateItem)

pub by_namespace : List TemplateItem → Namespaces → Namespaces
by_namespace [] m = m
by_namespace (t ∷ ts) m =
    by_namespace ts (insert t.namespace (lookup_or [] t.namespace m ++ t ∷ []) m)

-- the names that the claims of one pod refer to
claim_names : List PodResourceClaim → List GoString
claim_names [] = []
claim_names (c ∷ cs) = elim c.resource_claim_template_name [
  | some name ↦ name ∷ claim_names cs
  | none ↦ claim_names cs
]

pub referenced : List (List PodResourceClaim) → List GoString
unfolding claim_names
referenced [] = []
referenced (claims ∷ pods) = claim_names claims ++ referenced pods

module _ (age : TemplateItem → ℤ) (grace_period : ℤ) where
  -- the loop over the templates of one namespace
  pub expired : List GoString → List TemplateItem → List TemplateItem
  expired names [] = []
  expired names (t ∷ ts) =
      let rest = expired names ts in
      if has t.name names || lt_int (age t) grace_period then rest else t ∷ rest

  -- a namespace whose pods cannot be listed is skipped
  of_namespace : List TemplateItem → Option (List (List PodResourceClaim)) → List TemplateItem
  unfolding expired referenced
  of_namespace ts none = []
  of_namespace ts (some pods) = expired (referenced pods) ts

  module _ (pods : GoString → Option (List (List PodResourceClaim))) where
    pub visit_namespaces : Namespaces → List TemplateItem
    unfolding of_namespace
    visit_namespaces [] = []
    visit_namespaces ((ns, ts) ∷ m) = of_namespace ts (pods ns) ++ visit_namespaces m

    unfoldable pub reconcile_templates {ℓ} :
        {E : Type ℓ} → (Namespaces → Namespaces) → Result E (List TemplateItem) → List TemplateItem
    unfolding visit_namespaces by_namespace
    reconcile_templates visit (err e) = []
    reconcile_templates visit (ok items) = visit_namespaces (visit (by_namespace items []))

-- `StartTemplateReconciler`: `reconcile` on the state of the cluster
unfoldable pub start_template_reconciler {ℓ} :
    {State : Type ℓ} → (State → State) → List Signal → State → State
unfolding on_ticks
start_template_reconciler reconcile signals s = on_ticks reconcile signals s
