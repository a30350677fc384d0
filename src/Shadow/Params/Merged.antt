-- ===== src/Shadow/Params/Merged.antt =====
-- Which values a driver's parameters are made from.
use composite_dra_driver.Prelude.{
  ℕ, ◌≡◌, ◌≢◌, refl, sym, ap, ◌∙◌, arith, List, [], ◌∷◌, Option, none, some, GoString, codes,
  str_eq, str_eq_iff, GoMap, lookup, insert, keys, lookup-insert, insert-AllDistinct, All,
  AllDistinct, Bool-cases, inl, inr, if◌then◌else◌,
}
use composite_dra_driver.Resource.{Attributes}
use composite_dra_driver.Shadow.Params.{
  ParamEntry, OverrideEntry, matches_device, matches_node_selector, find_matching_entry,
  find_matching_entry_by_match, copy_into, override_with, apply_overrides, build_template_data,
}

or_else {ℓ} : {A : Type ℓ} → Option A → Option A → Option A
or_else none b = b
or_else (some a) b = some a

module _ {ℓ} {V : Type ℓ} where
  not-in-map : (c : GoString) (m : GoMap V) → All (λ j. c ≢ j) (keys m) → lookup c m ≡ none
  unfolding lookup
  not-in-map c [] h = refl
  not-in-map c ((k, v) ∷ m) (ne, h) = ground (arith, str_eq_iff k c, not-in-map c m h)

  lookup-copy_into :
      (k : GoString) (src dst : GoMap V)
      → AllDistinct (keys src)
      → lookup k (copy_into src dst) ≡ or_else (lookup k src) (lookup k dst)
  unfolding copy_into lookup or_else
  lookup-copy_into k [] dst h = refl
  lookup-copy_into k ((j, v) ∷ src) dst (ne, h) =
      let ih = lookup-copy_into k src (insert j v dst) h in
      let now = lookup-insert j k v dst in
      elim (Bool-cases (str_eq j k)) [
        | inl same ↦
            let here : lookup k src ≡ none =
              not-in-map k src (rw ((str_eq_iff j k).0 same) at ne) in
            rw same ((rw here at ih) ∙ now ∙ rw same refl)
        | inr other ↦ rw other (ih ∙ ap (or_else (lookup k src)) (now ∙ rw other refl))
      ]

  -- the value that one override gives to a key, if it applies
  value_in : GoString → Option (GoMap V) → Option V
  value_in k none = none
  value_in k (some values) = lookup k values

  pub override_value : GoMap GoString → Attributes → GoString → OverrideEntry V → Option V
  unfolding value_in
  override_value labels attrs k o =
      if matches_node_selector o.node_selector labels
      then value_in k (find_matching_entry o.entries attrs)
      else none

  -- The last override that gives the key a value decides, and the base where none does.
  pub resolved :
      GoMap GoString → Attributes → GoString → List (OverrideEntry V) → Option V → Option V
  unfolding or_else override_value
  resolved labels attrs k [] base = base
  resolved labels attrs k (o ∷ os) base =
      or_else (resolved labels attrs k os none) (or_else (override_value labels attrs k o) base)

  or_else_assoc : (a b c : Option V) → or_else (or_else a b) c ≡ or_else a (or_else b c)
  unfolding or_else
  or_else_assoc none b c = refl
  or_else_assoc (some a) b c = refl

  resolved-base :
      (labels : GoMap GoString) (attrs : Attributes) (k : GoString) (os : List (OverrideEntry V))
      (base : Option V)
      → resolved labels attrs k os base ≡ or_else (resolved labels attrs k os none) base
  unfolding resolved or_else
  resolved-base labels attrs k [] base = refl
  resolved-base labels attrs k (o ∷ os) base =
      let first = resolved labels attrs k os none in
      let here = override_value labels attrs k o in
      sym (
        or_else_assoc first (or_else here none) base
        ∙ ap (or_else first) (or_else_assoc here none base))

  unfoldable pub HasDistinct : Option (GoMap V) → Type 0
  HasDistinct none = Unit
  HasDistinct (some values) = AllDistinct (keys values)

  found-HasDistinct :
      (es : List (ParamEntry V)) (attrs : Attributes)
      → All (λ e. HasDistinct e.values) es
      → HasDistinct (find_matching_entry es attrs)
  unfolding find_matching_entry HasDistinct
  found-HasDistinct [] attrs h = tt
  found-HasDistinct (e ∷ es) attrs (p, h) = elim (Bool-cases (matches_device e.matchers attrs)) [
    | inl yes' ↦ rw (yes', find_matching_entry) p
    | inr no' ↦ rw (no', find_matching_entry) (found-HasDistinct es attrs h)
  ]

  -- overrides are searched as the base entries are
  by_match-eq :
      (es : List (ParamEntry V)) (attrs : Attributes) (base : List (ParamEntry V))
      → find_matching_entry_by_match es attrs base ≡ find_matching_entry es attrs
  unfolding find_matching_entry find_matching_entry_by_match
  by_match-eq [] attrs base = refl
  by_match-eq (e ∷ es) attrs base = elim (Bool-cases (matches_device e.matchers attrs)) [
    | inl m ↦ rw m refl
    | inr m ↦ rw m (by_match-eq es attrs base)
  ]

  lookup-override_with :
      (k : GoString) (found : Option (GoMap V)) (m : GoMap V)
      → HasDistinct found
      → lookup k (override_with found m) ≡ or_else (value_in k found) (lookup k m)
  unfolding override_with value_in or_else HasDistinct
  lookup-override_with k none m h = refl
  lookup-override_with k (some values) m h = lookup-copy_into k values m h

  lookup-apply_overrides :
      (labels : GoMap GoString) (attrs : Attributes) (entries : List (ParamEntry V)) (k : GoString)
      (os : List (OverrideEntry V)) (m : GoMap V)
      → All (λ o. All (λ e. HasDistinct e.values) o.entries) os
      → lookup k (apply_overrides labels attrs entries os m)
        ≡ resolved labels attrs k os (lookup k m)
  unfolding apply_overrides resolved override_value
  lookup-apply_overrides labels attrs entries k [] m h = refl
  lookup-apply_overrides labels attrs entries k (o ∷ os) m (p, h) =
      let found = find_matching_entry o.entries attrs in
      elim (Bool-cases (matches_node_selector o.node_selector labels)) [
        | inl applies ↦
            rw (applies, apply_overrides, override_value, by_match-eq o.entries attrs entries)
              (lookup-apply_overrides labels attrs entries k os (override_with found m) h
                ∙ ap (resolved labels attrs k os)
                    (lookup-override_with k found m (found-HasDistinct o.entries attrs p))
                ∙ resolved-base labels attrs k os _)
        | inr other ↦
            rw (other, apply_overrides, override_value)
              (lookup-apply_overrides labels attrs entries k os m h
                ∙ resolved-base labels attrs k os _)
      ]

  copy_into-AllDistinct :
      (src dst : GoMap V) → AllDistinct (keys dst) → AllDistinct (keys (copy_into src dst))
  unfolding copy_into
  copy_into-AllDistinct [] dst h = h
  copy_into-AllDistinct ((k, v) ∷ src) dst h =
      copy_into-AllDistinct src (insert k v dst) (insert-AllDistinct k v dst h)

  override_with-AllDistinct :
      (found : Option (GoMap V)) (m : GoMap V)
      → AllDistinct (keys m)
      → AllDistinct (keys (override_with found m))
  unfolding override_with
  override_with-AllDistinct none m h = h
  override_with-AllDistinct (some values) m h = copy_into-AllDistinct values m h

  apply_overrides-AllDistinct :
      (labels : GoMap GoString) (attrs : Attributes) (entries : List (ParamEntry V))
      (os : List (OverrideEntry V)) (m : GoMap V)
      → AllDistinct (keys m)
      → AllDistinct (keys (apply_overrides labels attrs entries os m))
  unfolding apply_overrides
  apply_overrides-AllDistinct labels attrs entries [] m h = h
  apply_overrides-AllDistinct labels attrs entries (o ∷ os) m h =
      let found = find_matching_entry o.entries attrs in
      elim (Bool-cases (matches_node_selector o.node_selector labels)) [
        | inl applies ↦
            rw (applies, apply_overrides, by_match-eq o.entries attrs entries)
              (apply_overrides-AllDistinct labels attrs entries os (override_with found m)
                (override_with-AllDistinct found m h))
        | inr other ↦
            rw (other, apply_overrides) (apply_overrides-AllDistinct labels attrs entries os m h)
      ]

  or_else-none : (a : Option V) → or_else a none ≡ a
  unfolding or_else
  or_else-none none = refl
  or_else-none (some a) = refl

  module _ (of_int : ℕ → V) (of_text : GoString → V) (labels : GoMap GoString) (attrs : Attributes)
      (entries : List (ParamEntry V)) (base : GoMap V) (os : List (OverrideEntry V)) (ordinal : ℕ)
      (node source k : GoString) where
    merged : GoMap V
    merged = apply_overrides labels attrs entries os (copy_into base [])

    lookup-merged :
        AllDistinct (keys base)
        → All (λ o. All (λ e. HasDistinct e.values) o.entries) os
        → lookup k (copy_into merged []) ≡ resolved labels attrs k os (lookup k base)
    unfolding merged lookup
    lookup-merged b h =
        let distinct =
          apply_overrides-AllDistinct labels attrs entries os (copy_into base [])
            (copy_into-AllDistinct base [] tt) in
        lookup-copy_into k merged [] distinct
        ∙ or_else-none (lookup k merged)
        ∙ lookup-apply_overrides labels attrs entries k os (copy_into base []) h
        ∙ ap (resolved labels attrs k os)
            (lookup-copy_into k base [] b ∙ or_else-none (lookup k base))

    -- A driver's template sees, under `SourceName`, `NodeName` and `PairOrdinal`, what the driver
    -- sets, and under any other key the value of the last override that applies to the node and the
    -- device and has the key, or else the base entry's (the keys of each map being distinct).
    pub build_template_data_lem :
        AllDistinct (keys base)
        → All (λ o. All (λ e. HasDistinct e.values) o.entries) os
        → lookup k (
            build_template_data of_int of_text
              (apply_overrides labels attrs entries os (copy_into base []))
              ordinal
              node
              source)
          ≡ (if str_eq (codes "SourceName") k
              then some (of_text source)
              else if str_eq (codes "NodeName") k
              then some (of_text node)
              else if str_eq (codes "PairOrdinal") k
              then some (of_int ordinal)
              else resolved labels attrs k os (lookup k base))
    unfolding build_template_data merged
    build_template_data_lem b h =
        rw
          (
            lookup-insert (codes "SourceName") k (of_text source) _,
            lookup-insert (codes "NodeName") k (of_text node) _,
            lookup-insert (codes "PairOrdinal") k (of_int ordinal) _,
            lookup-merged b h,
          )
          refl
