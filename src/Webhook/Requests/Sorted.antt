-- ===== src/Webhook/Requests/Sorted.antt =====
-- Sorting keeps what holds of every text, and every key of a map is found.
use composite_dra_driver.Prelude.{
  ◌≡◌, refl, List, [], ◌∷◌, some, GoString, GoMap, lookup, keys, str_eq, str_eq_refl, str_lt, All,
  All-mono, Bool-cases, inl, inr,
}
use composite_dra_driver.Webhook.Requests.{sort_strings, insert_string}

-- sorting keeps what holds of every text
module _ (P : GoString → Type 0) where
  insert_string-All :
      (s : GoString) (ts : List GoString) → P s → All P ts → All P (insert_string s ts)
  unfolding insert_string
  insert_string-All s [] p h = (p, tt)
  insert_string-All s (t ∷ ts) p (q, h) = elim (Bool-cases (str_lt t s)) [
    | inl e ↦ rw e (q, insert_string-All s ts p h)
    | inr e ↦ rw e (p, (q, h))
  ]

  pub sort_strings-All : (ss : List GoString) → All P ss → All P (sort_strings ss)
  unfolding sort_strings
  sort_strings-All [] h = tt
  sort_strings-All (s ∷ ss) (p, h) = insert_string-All s (sort_strings ss) p (sort_strings-All ss h)

-- every key of a map is found
pub keys-found {ℓ} :
    {V : Type ℓ} (m : GoMap V) → All (λ k. (v : V) × (lookup k m ≡ some v)) (keys m)
unfolding lookup
keys-found [] = tt
keys-found {V} ((k, v) ∷ m) = (
  (v, rw (str_eq_refl k) refl),
  All-mono (keys m)
      (λ j f. elim (Bool-cases (str_eq k j)) [ inl e ↦ (v, rw e refl) | inr e ↦ (f.0, rw e f.1) ])
      (keys-found m),
)
