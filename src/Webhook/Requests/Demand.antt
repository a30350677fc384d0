-- ===== src/Webhook/Requests/Demand.antt =====
-- What the webhook counts for a resource is what the containers request of it.
use composite_dra_driver.Prelude.{
  ℕ, suc, ◌+◌, ◌≡◌, refl, subst, arith, Bool, true, false, not, ◌&&◌, lt_one, List, [], ◌∷◌, ◌++◌,
  Option, none, some, ℤ, pos, negsuc, int64, add_int64_pos, GoString, GoMap, lookup, insert,
  get_elem?, All, All-append, All-insert, All-lookup, Bool-cases, Option-cases, inl, inr,
}
use composite_dra_driver.Webhook.{Container, Pod}
use composite_dra_driver.Webhook.Requests.{
  ResourceMatch, CompositionRequest, add_match, request_for, new_request, group_matches,
  match_quantity, match_container, match_containers,
}
use composite_dra_driver.Webhook.Patches.{request_count, quantity_count, rounds}

module _ {Q : Type 0} (as_int64 : Q → ℤ × Bool) (pod : Pod Q) where
  unfoldable pub count_in : GoString → Option (Container Q) → ℕ
  count_in res_name none = 0
  count_in res_name (some c) = request_count as_int64 pod res_name c

  -- how many of a resource the containers of a list request
  unfoldable pub demand : GoString → List ℕ → ℕ
  unfolding count_in
  demand res_name [] = 0
  demand res_name (i ∷ is) = count_in res_name (get_elem? pod.containers i) + demand res_name is

  abbrev pub HasContainer : ℕ → Type 0
  HasContainer i = (c : Container Q) × (get_elem? pod.containers i ≡ some c)

  demand-append :
      (res_name : GoString) (is : List ℕ) (i : ℕ)
      → demand res_name (is ++ i ∷ [])
        ≡ demand res_name is + count_in res_name (get_elem? pod.containers i)
  unfolding demand
  demand-append res_name [] i = omega arith
  demand-append res_name (j ∷ is) i = omega (arith, demand-append res_name is i)

  -- a match counts what its container requests
  abbrev pub IsMatch : ResourceMatch → Type 0
  IsMatch m =
      HasContainer m.container_idx
      × (m.count ≡ pos (count_in m.resource_name (get_elem? pod.containers m.container_idx)))

  positive : (n : ℤ) (fits : Bool) → (fits && not (lt_one n)) ≡ true → n ≡ pos (rounds n)
  positive (pos n) fits h = refl
  positive (negsuc n) true h = cc
  positive (negsuc n) false h = cc

  counted :
      (i : ℕ) (c : Container Q) (res_name : GoString) (qty : Q)
      → get_elem? pod.containers i ≡ some c
      → lookup res_name c.requests ≡ some qty
      → (as_int64 qty).0 ≡ pos (rounds (as_int64 qty).0)
      → (as_int64 qty).0 ≡ pos (count_in res_name (get_elem? pod.containers i))
  unfolding count_in request_count quantity_count
  counted i c res_name qty e l h = rw (e, l) h

  match_quantity-AllMatch :
      (i : ℕ) (c : Container Q) (res_name dev_class : GoString) (q : Option Q)
      → get_elem? pod.containers i ≡ some c
      → lookup res_name c.requests ≡ q
      → All IsMatch (match_quantity as_int64 i res_name dev_class q)
  unfolding match_quantity
  match_quantity-AllMatch i c res_name dev_class none e l = tt
  match_quantity-AllMatch i c res_name dev_class (some qty) e l =
      let (count, fits) = as_int64 qty in
      elim (Bool-cases (fits && not (lt_one count))) [
        | inl passes ↦
            rw passes (((c, e), counted i c res_name qty e l (positive count fits passes)), tt)
        | inr fails ↦ rw fails tt
      ]

  match_container-AllMatch :
      (i : ℕ) (c : Container Q) (mappings : GoMap GoString)
      → get_elem? pod.containers i ≡ some c
      → All IsMatch (match_container as_int64 i c mappings)
  unfolding match_container
  match_container-AllMatch i c [] e = tt
  match_container-AllMatch i c ((res_name, dev_class) ∷ mappings) e =
      All-append IsMatch _ _
        (match_quantity-AllMatch i c res_name dev_class (lookup res_name c.requests) e refl)
        (match_container-AllMatch i c mappings e)

  pub match_containers-AllMatch :
      (visit : ℕ → GoMap GoString → GoMap GoString) (mappings : GoMap GoString) (i : ℕ)
      (cs : List (Container Q))
      → ((j : ℕ) → get_elem? pod.containers (i + j) ≡ get_elem? cs j)
      → All IsMatch (match_containers as_int64 visit mappings i cs)
  unfolding match_containers
  match_containers-AllMatch visit mappings i [] at = tt
  match_containers-AllMatch visit mappings i (c ∷ cs) at =
      let here : i + 0 ≡ i = omega arith in
      All-append IsMatch _ _
        (match_container-AllMatch i c (visit i mappings)
          (subst (λ k. get_elem? pod.containers k ≡ some c) here (at 0)))
        (match_containers-AllMatch visit mappings (suc i) cs λ j.
          let next : i + suc j ≡ suc i + j = omega arith in
          subst (λ k. get_elem? pod.containers k ≡ get_elem? cs j) next (at (suc j)))

  -- a composition's request counts what its containers request
  abbrev pub IsFair : GoString → ℤ → List ℕ → Type 0
  IsFair res_name total idxs = (total ≡ int64 (demand res_name idxs)) × All HasContainer idxs

  abbrev pub IsFairEntry : GoString × CompositionRequest → Type 0
  IsFairEntry (k, cr) = (cr.resource_name ≡ k) × IsFair k cr.total_count cr.container_idxs

  request_for-IsFair :
      (m : ResourceMatch) (comp_map : GoMap CompositionRequest)
      → All IsFairEntry comp_map
      → IsFairEntry (m.resource_name, request_for m (lookup m.resource_name comp_map))
  unfolding request_for new_request demand int64
  request_for-IsFair m comp_map h = elim (Option-cases (lookup m.resource_name comp_map)) [
    | inl e ↦ rw e (refl, (refl, tt))
    | inr (cr, e) ↦ rw e (All-lookup IsFairEntry m.resource_name comp_map cr h e)
  ]

  add_match-IsFair :
      (m : ResourceMatch) (cr : CompositionRequest)
      → IsMatch m
      → IsFairEntry (m.resource_name, cr)
      → IsFairEntry (m.resource_name, add_match m cr)
  unfolding add_match
  add_match-IsFair m cr (at, counts) (named, (total, all)) = (
    named,
    (
      rw (total, counts, demand-append m.resource_name cr.container_idxs m.container_idx)
          (add_int64_pos _ _),
      All-append HasContainer cr.container_idxs _ all (at, tt),
    ),
  )

  pub group_matches-AllFair :
      (ms : List ResourceMatch) (comp_map : GoMap CompositionRequest)
      → All IsMatch ms
      → All IsFairEntry comp_map
      → All IsFairEntry (group_matches ms comp_map)
  unfolding group_matches
  group_matches-AllFair [] comp_map hs h = h
  group_matches-AllFair (m ∷ ms) comp_map (p, hs) h =
      let cr = request_for m (lookup m.resource_name comp_map) in
      group_matches-AllFair ms (insert m.resource_name (add_match m cr) comp_map) hs (
        All-insert IsFairEntry m.resource_name (add_match m cr) comp_map
          (add_match-IsFair m cr p (request_for-IsFair m comp_map h)) h)
