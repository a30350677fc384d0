-- ===== src/Synthesizer/Cel/Cache.antt =====
-- The cache changes no result.
use composite_dra_driver.Prelude.{
  ◌≡◌, refl, sym, ap, GoString, GoMap, lookup, All, All-insert, All-lookup, Option-cases, inl, inr,
}
use composite_dra_driver.Prelude.Result.{Result, ok, err}
use composite_dra_driver.Resource.{Attributes}
use composite_dra_driver.Synthesizer.Cel.{
  Value, CelDevice, keep, get_program, evaluate, match_attributes,
}

module _ {ℓ κ} {Program : Type ℓ} {Error : Type κ} (compile : GoString → Result Error Program)
    (eval : Program → CelDevice → Result Error Value) where
  -- every program of the cache is the one that its expression compiles to
  abbrev pub IsCache : GoMap Program → Type (ℓ ⊔ κ)
  IsCache = All (λ entry. compile entry.0 ≡ ok entry.1)

  keep_lem :
      (expression : GoString) (cache : GoMap Program) (r : Result Error Program)
      → compile expression ≡ r
      → IsCache cache
      → ((keep compile eval expression cache r).0 ≡ compile expression)
        × IsCache (keep compile eval expression cache r).1
  unfolding keep
  keep_lem expression cache (err e) h c = (sym h, c)
  keep_lem expression cache (ok prog) h c =
      (sym h, All-insert (λ entry. compile entry.0 ≡ ok entry.1) expression prog cache h c)

  get_program_lem :
      (expression : GoString) (cache : GoMap Program)
      → IsCache cache
      → ((get_program compile eval expression cache).0 ≡ compile expression)
        × IsCache (get_program compile eval expression cache).1
  unfolding get_program
  get_program_lem expression cache c = elim (Option-cases (lookup expression cache)) [
    | inl e ↦ rw (e, get_program) (keep_lem expression cache (compile expression) refl c)
    | inr (prog, e) ↦
        rw (e, get_program)
          (sym (All-lookup (λ entry. compile entry.0 ≡ ok entry.1) expression cache prog c e), c)
  ]

  -- `Match` on a cache that holds only what its expressions compile to returns what compiling and
  -- evaluating the expression anew gives, and leaves such a cache.
  pub match_attributes_lem :
      (expression : GoString) (attrs : Attributes) (cache : GoMap Program)
      → IsCache cache
      → ((match_attributes compile eval expression attrs cache).0
          ≡ evaluate compile eval attrs (compile expression))
        × IsCache (match_attributes compile eval expression attrs cache).1
  unfolding match_attributes
  match_attributes_lem expression attrs cache c =
      let (same, kept) = get_program_lem expression cache c in
      (ap (evaluate compile eval attrs) same, kept)
