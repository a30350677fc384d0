-- ===== src/Webhook/JsonPatch/Updates.antt =====
-- A container that one operation changes.
use composite_dra_driver.Prelude.{
  ℕ, zero, suc, ◌<◌, ◌≡◌, refl, ap, ◌∙◌, arith, List, [], ◌∷◌, ◌++◌, Option, none, some, GoString,
  codes, decimal, GoMap, lookup, delete, get_elem?, length, str_eq, Option-cases, inl, inr, ◌==◌,
  if◌then◌else◌,
}
use composite_dra_driver.Webhook.{Container, Pod, PatchOp}
use composite_dra_driver.Webhook.Escape.{json_patch_escape}
use composite_dra_driver.Webhook.Patches.{container_path, remove_op}
use composite_dra_driver.Webhook.JsonPatch.{
  update_at, remove_key, in_container, remove_request, remove_limit, remove_at, apply_op, apply_all,
}
use composite_dra_driver.Webhook.JsonPatch.Paths.{index_in-decimal, locate-request, locate-limit}

module _ {ℓ} {A : Type ℓ} where
  -- the item at an index, replaced
  unfoldable pub set_at : ℕ → A → List A → List A
  set_at i a [] = []
  set_at zero a (x ∷ xs) = a ∷ xs
  set_at (suc i) a (x ∷ xs) = x ∷ set_at i a xs

  pub get_elem?-set_at :
      (i j : ℕ) (a : A) (xs : List A)
      → i < length xs
      → get_elem? (set_at i a xs) j ≡ (if i == j then some a else get_elem? xs j)
  unfolding set_at
  get_elem?-set_at i j a [] h = absurd (omega arith)
  get_elem?-set_at zero zero a (x ∷ xs) h = ground arith
  get_elem?-set_at zero (suc j) a (x ∷ xs) h = ground arith
  get_elem?-set_at (suc i) zero a (x ∷ xs) h = ground arith
  get_elem?-set_at (suc i) (suc j) a (x ∷ xs) h =
      get_elem?-set_at i j a xs (omega arith) ∙ ground arith

  pub length-set_at : (i : ℕ) (a : A) (xs : List A) → length (set_at i a xs) ≡ length xs
  unfolding set_at
  length-set_at i a [] = refl
  length-set_at zero a (x ∷ xs) = refl
  length-set_at (suc i) a (x ∷ xs) = ap suc (length-set_at i a xs)

  pub set_at-set_at : (i : ℕ) (a b : A) (xs : List A) → set_at i b (set_at i a xs) ≡ set_at i b xs
  unfolding set_at
  set_at-set_at i a b [] = refl
  set_at-set_at zero a b (x ∷ xs) = refl
  set_at-set_at (suc i) a b (x ∷ xs) = ap (◌∷◌ x) (set_at-set_at i a b xs)

  pub index-lt : (i : ℕ) (a : A) (xs : List A) → get_elem? xs i ≡ some a → i < length xs
  index-lt i a [] h = cc
  index-lt zero a (x ∷ xs) h = omega arith
  index-lt (suc i) a (x ∷ xs) h = omega (arith, index-lt i a xs h)

  update_at-set_at :
      (i : ℕ) (f : A → Option A) (a b : A) (xs : List A)
      → get_elem? xs i ≡ some a
      → f a ≡ some b
      → update_at i f xs ≡ some (set_at i b xs)
  unfolding update_at set_at
  update_at-set_at i f a b [] h e = cc
  update_at-set_at zero f a b (x ∷ xs) h e = let same : x ≡ a = cc in rw (same, e) refl
  update_at-set_at (suc i) f a b (x ∷ xs) h e = rw (update_at-set_at i f a b xs h e) refl

module _ {Q : Type 0} where
  pub in_container-set_at :
      (i : ℕ) (f : Container Q → Option (Container Q)) (c d : Container Q) (pod : Pod Q)
      → get_elem? pod.containers i ≡ some c
      → f c ≡ some d
      → in_container (decimal i) f pod
        ≡ some (record pod { containers = set_at i d pod.containers })
  unfolding in_container
  in_container-set_at i f c d pod h e =
      rw (index_in-decimal i (length pod.containers) (index-lt i c pod.containers h))
        (rw (update_at-set_at i f c d pod.containers h e) refl)

  pub apply_all-cons :
      (o : PatchOp) (os : List PatchOp) (pod pod' : Pod Q)
      → apply_op o pod ≡ some pod'
      → apply_all (o ∷ os) pod ≡ apply_all os pod'
  unfolding apply_all
  apply_all-cons o os pod pod' h = rw (h, apply_all) refl

  pub apply_all-append :
      (os ps : List PatchOp) (pod pod' : Pod Q)
      → apply_all os pod ≡ some pod'
      → apply_all (os ++ ps) pod ≡ apply_all ps pod'
  unfolding apply_all
  apply_all-append [] ps pod pod' h = (let q : pod ≡ pod' = cc in ap (apply_all ps) q)
  apply_all-append (o ∷ os) ps pod pod' h = elim (Option-cases (apply_op o pod)) [
    | inl e ↦
        absurd (let q : ◌≡◌ {A = Option (Pod Q)} none (some pod') = rw (e, apply_all) at h in cc)
    | inr (mid, e) ↦ rw (e, apply_all) (apply_all-append os ps mid pod' (rw (e, apply_all) at h))
  ]

  remove_key-eq :
      (k : GoString) (q : Q) (m : GoMap Q)
      → lookup k m ≡ some q
      → remove_key k m ≡ some (delete k m)
  unfolding remove_key
  remove_key-eq k q m l = rw (l, remove_key) refl

  remove_request-eq :
      (k : GoString) (q : Q) (c : Container Q)
      → lookup k c.requests ≡ some q
      → remove_request k c ≡ some (record c { requests = delete k c.requests })
  unfolding remove_request
  remove_request-eq k q c l = rw (remove_key-eq k q c.requests l) refl

  remove_limit-eq :
      (k : GoString) (q : Q) (c : Container Q)
      → lookup k c.limits ≡ some q
      → remove_limit k c ≡ some (record c { limits = delete k c.limits })
  unfolding remove_limit
  remove_limit-eq k q c l = rw (remove_key-eq k q c.limits l) refl

  -- the pod with another container at an index
  abbrev pub with_container : ℕ → Container Q → Pod Q → Pod Q
  with_container i d pod = record pod { containers = set_at i d pod.containers }

  pub remove_request-op :
      (i : ℕ) (k : GoString) (q : Q) (c : Container Q) (pod : Pod Q)
      → get_elem? pod.containers i ≡ some c
      → lookup k c.requests ≡ some q
      → apply_op (remove_op (container_path i (codes "requests/" ++ json_patch_escape k))) pod
        ≡ some (with_container i (record c { requests = delete k c.requests }) pod)
  unfolding apply_op remove_op codes str_eq remove_at
  remove_request-op i k q c pod h l = rw (locate-request i k) (
      in_container-set_at i (remove_request k) c (record c { requests = delete k c.requests }) pod h
        (remove_request-eq k q c l))

  pub remove_limit-op :
      (i : ℕ) (k : GoString) (q : Q) (c : Container Q) (pod : Pod Q)
      → get_elem? pod.containers i ≡ some c
      → lookup k c.limits ≡ some q
      → apply_op (remove_op (container_path i (codes "limits/" ++ json_patch_escape k))) pod
        ≡ some (with_container i (record c { limits = delete k c.limits }) pod)
  unfolding apply_op remove_op codes str_eq remove_at
  remove_limit-op i k q c pod h l = rw (locate-limit i k) (
      in_container-set_at i (remove_limit k) c (record c { limits = delete k c.limits }) pod h
        (remove_limit-eq k q c l))
