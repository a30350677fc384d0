-- ===== src/Webhook/Requests/Complete.antt =====
-- Each countable request of a mapped resource is a match.
use composite_dra_driver.Prelude.{
  ℕ, zero, suc, ◌+◌, ◌≡◌, refl, subst, arith, Bool, true, false, List, [], ◌∷◌, some, ℤ, lt_one,
  GoString, GoMap, lookup, get_elem?, Elem, Elem-append_left, Elem-append_right, inl, inr,
}
use composite_dra_driver.Webhook.{Container, Pod}
use composite_dra_driver.Webhook.Requests.{
  ResourceMatch, match_quantity, match_container, match_containers, find_resource_requests,
}

module _ {Q : Type 0} (as_int64 : Q → ℤ × Bool) (k v : GoString) (q : Q)
    (fits : (as_int64 q).1 ≡ true) (positive : lt_one (as_int64 q).0 ≡ false) where
  -- the match of this request in a container
  abbrev pub match_of : ℕ → ResourceMatch
  match_of i = record {
    resource_name = k;
    device_class_name = v;
    count = (as_int64 q).0;
    container_idx = i;
  }

  match_quantity-Elem : (i : ℕ) → Elem (match_of i) (match_quantity as_int64 i k v (some q))
  unfolding match_quantity
  match_quantity-Elem i = rw (fits, positive) (inl refl)

  match_container-Elem :
      (i : ℕ) (c : Container Q) (ms : GoMap GoString)
      → lookup k c.requests ≡ some q
      → Elem (k, v) ms
      → Elem (match_of i) (match_container as_int64 i c ms)
  unfolding match_container
  match_container-Elem i c [] l h = elim h [ ]
  match_container-Elem i c ((j, w) ∷ ms) l (inl e) =
      let here : Elem (match_of i) (match_quantity as_int64 i k v (lookup k c.requests)) =
        rw l (match_quantity-Elem i) in
      Elem-append_left (match_of i) _ (match_container as_int64 i c ms) (
        subst
          (λ (x : GoString × GoString).
            Elem (match_of i) (match_quantity as_int64 i x.0 x.1 (lookup x.0 c.requests)))
          e here)
  match_container-Elem i c ((j, w) ∷ ms) l (inr h) =
      Elem-append_right (match_of i) _ (match_container as_int64 i c ms)
        (match_container-Elem i c ms l h)

  module _ (visit : ℕ → GoMap GoString → GoMap GoString) (mappings : GoMap GoString) where
    match_containers-Elem :
        (i j n : ℕ) (c : Container Q) (cs : List (Container Q))
        → get_elem? cs j ≡ some c
        → lookup k c.requests ≡ some q
        → n ≡ i + j
        → Elem (k, v) (visit n mappings)
        → Elem (match_of n) (match_containers as_int64 visit mappings i cs)
    unfolding match_containers
    match_containers-Elem i j n c [] h l e m = cc
    match_containers-Elem i zero n c (d ∷ cs) h l e m =
        let same : c ≡ d = cc in
        let here : n ≡ i = omega arith in
        let found = match_container-Elem n c (visit n mappings) l m in
        Elem-append_left (match_of n) (match_container as_int64 i d (visit i mappings)) _ (
          subst (λ j. Elem (match_of n) (match_container as_int64 j d (visit j mappings))) here
            (subst (λ c. Elem (match_of n) (match_container as_int64 n c (visit n mappings))) same
              found))
    match_containers-Elem i (suc j) n c (d ∷ cs) h l e m =
        Elem-append_right (match_of n) _ _
          (match_containers-Elem (suc i) j n c cs h l (omega arith) m)

    pub find_resource_requests-Elem :
        (pod : Pod Q) (i : ℕ) (c : Container Q)
        → get_elem? pod.containers i ≡ some c
        → lookup k c.requests ≡ some q
        → Elem (k, v) (visit i mappings)
        → Elem (match_of i) (find_resource_requests as_int64 visit mappings pod)
    unfolding find_resource_requests
    find_resource_requests-Elem pod i c h l m =
        match_containers-Elem 0 i i c pod.containers h l (omega arith) m
