-- ===== src/Webhook/Requests/Requested.antt =====
-- Each match that the webhook finds is a request of its container.
use composite_dra_driver.Prelude.{
  ℕ, suc, ◌+◌, ◌≡◌, refl, ap, subst, arith, Bool, not, ◌&&◌, List, [], ◌∷◌, Option, none, some, ℤ,
  lt_one, GoString, GoMap, lookup, get_elem?, All, All-append, Bool-cases, inl, inr,
}
use composite_dra_driver.Webhook.{Container, Pod}
use composite_dra_driver.Webhook.Requests.{
  ResourceMatch, match_quantity, match_container, match_containers, find_resource_requests,
}

module _ {Q : Type 0} (pod : Pod Q) where
  abbrev pub HasRequest : ResourceMatch → Type 0
  HasRequest m =
      (c : Container Q) × (get_elem? pod.containers m.container_idx ≡ some c)
      × ((q : Q) × (lookup m.resource_name c.requests ≡ some q))

  module _ (as_int64 : Q → ℤ × Bool) where
    match_quantity-AllRequested :
        (i : ℕ) (c : Container Q) (res_name dev_class : GoString) (q : Option Q)
        → get_elem? pod.containers i ≡ some c
        → lookup res_name c.requests ≡ q
        → All HasRequest (match_quantity as_int64 i res_name dev_class q)
    unfolding match_quantity
    match_quantity-AllRequested i c res_name dev_class none e l = tt
    match_quantity-AllRequested i c res_name dev_class (some qty) e l =
        let (count, fits) = as_int64 qty in
        elim (Bool-cases (fits && not (lt_one count))) [
          | inl passes ↦ rw passes ((c, e, (qty, l)), tt)
          | inr fails ↦ rw fails tt
        ]

    match_container-AllRequested :
        (i : ℕ) (c : Container Q) (mappings : GoMap GoString)
        → get_elem? pod.containers i ≡ some c
        → All HasRequest (match_container as_int64 i c mappings)
    unfolding match_container
    match_container-AllRequested i c [] e = tt
    match_container-AllRequested i c ((res_name, dev_class) ∷ mappings) e =
        All-append HasRequest _ _
          (match_quantity-AllRequested i c res_name dev_class (lookup res_name c.requests) e refl)
          (match_container-AllRequested i c mappings e)

    module _ (visit : ℕ → GoMap GoString → GoMap GoString) (mappings : GoMap GoString) where
      match_containers-AllRequested :
          (i : ℕ) (cs : List (Container Q))
          → ((j : ℕ) → get_elem? pod.containers (i + j) ≡ get_elem? cs j)
          → All HasRequest (match_containers as_int64 visit mappings i cs)
      unfolding match_containers
      match_containers-AllRequested i [] at_ = tt
      match_containers-AllRequested i (c ∷ cs) at_ =
          let here : i + 0 ≡ i = omega arith in
          All-append HasRequest _ _
            (match_container-AllRequested i c (visit i mappings)
              (subst (λ k. get_elem? pod.containers k ≡ some c) here (at_ 0)))
            (match_containers-AllRequested (suc i) cs λ j.
              let next : i + suc j ≡ suc i + j = omega arith in
              subst (λ k. get_elem? pod.containers k ≡ get_elem? cs j) next (at_ (suc j)))

      pub find_resource_requests-AllRequested :
          All HasRequest (find_resource_requests as_int64 visit mappings pod)
      unfolding find_resource_requests
      find_resource_requests-AllRequested =
          match_containers-AllRequested 0 pod.containers
            λ j. ap (get_elem? pod.containers) (omega arith)
