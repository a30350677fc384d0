-- ===== src/Config/Validation/Exact.antt =====
-- `Validate` accepts exactly the valid configurations.
use composite_dra_driver.Prelude.{
  ℕ, suc, ◌≡◌, refl, sym, ap, ◌≢◌, ◌↔◌, ◌⊎◌, inl, inr, false, not, List, [], ◌∷◌, map, Option, none,
  some, GoString, codes, Elem, All, All-mono, str_eq_iff,
}
use composite_dra_driver.Prelude.Result.{
  ok, ◌>>=◌, ◌>>◌, guard_iff, seq_iff, last_iff, iff_with, ok_parts,
}
use composite_dra_driver.Config.{
  CompositeConfig, SourceConfig, CompositionConfig, DeviceParamsConfig, effective_device_class_name,
}
use composite_dra_driver.Config.Validation.{
  Checked, check_sources, check_composition, check_compositions, check_device_params, validate,
  is_transport_mode,
}
use composite_dra_driver.Config.Validation.Sets.{
  is_empty_iff, is_nil_iff, not_iff, has-false_iff, ne-str_eq_iff, AllFresh, AllFresh-iff,
}
use composite_dra_driver.Config.Validation.Spec.{
  IsValidSource, IsValidComposition, HasParamsPath, IsValid, source_names,
}
use composite_dra_driver.Config.Validation.Loops.{
  check_members_iff, check_constraints_iff, check_filters_iff, All_iff,
}
use composite_dra_driver.Config.Validation.Transport.{SameNames, IsValidComposition-mono}
use composite_dra_driver.Config.Validation.Pairing.{or_iff, is_empty-true_iff, pairing_iff}

-- the set of names that the loop over the sources builds
collected : List GoString → List SourceConfig → List GoString
collected seen [] = seen
collected seen (s ∷ srcs) = collected (s.name ∷ seen) srcs

Elem-collected :
    (k : GoString) (seen : List GoString) (srcs : List SourceConfig)
    → Elem k (collected seen srcs) ↔ (Elem k seen ⊎ Elem k (map (λ s. s.name) srcs))
unfolding collected
Elem-collected k seen [] = (inl, λ h. elim h [ inl m ↦ m | inr m ↦ absurd m ])
Elem-collected k seen (s ∷ srcs) =
    iff_with (Elem-collected k (s.name ∷ seen) srcs)
      (λ h. elim h [ inl (inl e) ↦ inr (inl e) | inl (inr m) ↦ inl m | inr m ↦ inr (inr m) ])
      (λ h. elim h [ inl m ↦ inl (inr m) | inr (inl e) ↦ inl (inl e) | inr (inr m) ↦ inr m ])

check_sources_iff :
    (d : GoString) (i : ℕ) (seen : List GoString) (srcs : List SourceConfig) (names : List GoString)
    → (check_sources d i seen srcs ≡ ok names) ↔ (
        (All (IsValidSource d) srcs × AllFresh seen (map (λ s. s.name) srcs))
        × (names ≡ collected seen srcs))
unfolding check_sources collected
check_sources_iff d i seen [] names = (λ h. ((tt, tt), cc), λ h. ap ok (sym h.1))
check_sources_iff d i seen (s ∷ srcs) names =
    iff_with
      (guard_iff _ (is_empty_iff s.name) (
        guard_iff _ (is_empty_iff s.driver) (
          guard_iff _ (is_empty_iff s.device_class_name) (
            guard_iff _ (ne-str_eq_iff s.driver d) (
              guard_iff _ (has-false_iff s.name seen)
                (check_sources_iff d (suc i) (s.name ∷ seen) srcs names))))))
      (λ r. (
        (
          (
            record { named = r.0; has_driver = r.1.0; has_class = r.1.1.0; is_leaf = r.1.1.1.0 },
            r.1.1.1.1.1.0.0,
          ),
          (r.1.1.1.1.0, r.1.1.1.1.1.0.1),
        ),
        r.1.1.1.1.1.1,
      ))
      (λ v. (
        v.0.0.0.named,
        (
          v.0.0.0.has_driver,
          (v.0.0.0.has_class, (v.0.0.0.is_leaf, (v.0.1.0, ((v.0.0.1, v.0.1.1), v.1)))),
        ),
      ))

abbrev IsTransport : GoString → Type 0
IsTransport tm =
    (tm ≡ []) ⊎ (tm ≡ codes "auto") ⊎ (tm ≡ codes "ethernet") ⊎ (tm ≡ codes "infiniband")

IsTransport-iff : (tm : GoString) → (not (is_transport_mode tm) ≡ false) ↔ IsTransport tm
IsTransport-iff tm =
    iff_with
      (iff_with (not_iff (is_transport_mode tm))
        (or_iff
          (or_iff (or_iff (is_empty-true_iff tm) (str_eq_iff tm (codes "auto")))
            (str_eq_iff tm (codes "ethernet")))
          (str_eq_iff tm (codes "infiniband"))).0
        (or_iff
          (or_iff (or_iff (is_empty-true_iff tm) (str_eq_iff tm (codes "auto")))
            (str_eq_iff tm (codes "ethernet")))
          (str_eq_iff tm (codes "infiniband"))).1)
      (λ h. elim h [
        | inl (inl (inl a)) ↦ inl a
        | inl (inl (inr b)) ↦ inr (inl b)
        | inl (inr c) ↦ inr (inr (inl c))
        | inr d ↦ inr (inr (inr d))
      ])
      (λ h. elim h [
        | inl a ↦ inl (inl (inl a))
        | inr (inl b) ↦ inl (inl (inr b))
        | inr (inr (inl c)) ↦ inl (inr c)
        | inr (inr (inr d)) ↦ inr d
      ])

check_composition_iff :
    (names : List GoString) (i : ℕ) (c : CompositionConfig)
    → (check_composition names i c ≡ ok tt) ↔ IsValidComposition names c
unfolding check_composition
check_composition_iff names i c =
    iff_with
      (guard_iff _ (is_nil_iff c.members) (
        seq_iff (check_members_iff names i 0 c.members) (
          seq_iff (check_constraints_iff i 0 c.constraints) (
            seq_iff (check_filters_iff names i c.filters) (
              guard_iff _ ((λ h. h), (λ h. h))
                (guard_iff _ ((λ h. h), (λ h. h))
                  (seq_iff ((λ h. h), (λ h. h))
                    (last_iff _ (IsTransport-iff c.transport_mode)))))))))
      (λ r. record {
        has_members = r.0;
        members = r.1.0;
        constraints = r.1.1.0;
        filters = (All_iff _ _).0 r.1.1.1.0;
        pairing = (pairing_iff names i c).0 (r.1.1.1.1.0, (r.1.1.1.1.1.0, r.1.1.1.1.1.1.0));
        transport = r.1.1.1.1.1.1.1;
      })
      (λ v.
        let p = (pairing_iff names i c).1 v.pairing in
        (
          v.has_members,
          (
            v.members,
            (v.constraints, ((All_iff _ _).1 v.filters, (p.0, (p.1.0, (p.1.1, v.transport))))),
          ),
        ))

module _ (names : List GoString) where
  abbrev Compositions : List GoString → List GoString → List CompositionConfig → Type 0
  Compositions comp_names class_names comps =
      (All (λ c. (c.name ≢ []) × IsValidComposition names c) comps)
      × AllFresh comp_names (map (λ c. c.name) comps)
      × AllFresh class_names (map effective_device_class_name comps)

  check_compositions_iff :
      (i : ℕ) (comp_names class_names : List GoString) (comps : List CompositionConfig)
      → (check_compositions names i comp_names class_names comps ≡ ok tt)
        ↔ Compositions comp_names class_names comps
  unfolding check_compositions
  check_compositions_iff i comp_names class_names [] = (λ h. (tt, tt, tt), λ h. refl)
  check_compositions_iff i comp_names class_names (c ∷ comps) =
      iff_with
        (guard_iff _ (is_empty_iff c.name) (
          guard_iff _ (has-false_iff c.name comp_names) (
            guard_iff _ (has-false_iff (effective_device_class_name c) class_names) (
              seq_iff (check_composition_iff names i c) (
                check_compositions_iff (suc i) (c.name ∷ comp_names)
                  (effective_device_class_name c ∷ class_names) comps)))))
        (λ r. (((r.0, r.1.1.1.0), r.1.1.1.1.0), (r.1.0, r.1.1.1.1.1), (r.1.1.0, r.1.1.1.1.2)))
        (λ v. (v.0.0.0, (v.1.0, (v.2.0, (v.0.0.1, (v.0.1, v.1.1, v.2.1))))))

check_params_iff :
    (p : Option DeviceParamsConfig) → (check_device_params p ≡ ok tt) ↔ HasParamsPath p
unfolding check_device_params
check_params_iff none = (λ h. tt, λ h. refl)
check_params_iff (some p) = last_iff _ (is_empty_iff p.config_map_path)

sources_then :
    (d : GoString) (srcs : List SourceConfig) (f : List GoString → Checked Unit)
    → ((check_sources d 0 [] srcs >>= f) ≡ ok tt) ↔ (
        (All (IsValidSource d) srcs × AllFresh [] (map (λ s. s.name) srcs))
        × (f (collected [] srcs) ≡ ok tt))
sources_then d srcs f = (
  λ h.
      let (names, e, g) = ok_parts (check_sources d 0 [] srcs) f h in
      let r = (check_sources_iff d 0 [] srcs names).0 e in (r.0, (rw r.1 at g)),
  λ v. rw ((check_sources_iff d 0 [] srcs (collected [] srcs)).1 (v.0, refl)) v.1,
)

same_names : (srcs : List SourceConfig) → SameNames (collected [] srcs) (map (λ s. s.name) srcs)
same_names srcs k =
    iff_with (Elem-collected k [] srcs) (λ h. elim h [ inl m ↦ absurd m | inr m ↦ m ]) inr

compositions_for :
    (xs ys : List GoString) (comps : List CompositionConfig)
    → ((k : GoString) → Elem k xs → Elem k ys)
    → All (λ (c : CompositionConfig). (c.name ≢ []) × IsValidComposition xs c) comps
    → All (λ (c : CompositionConfig). (c.name ≢ []) × IsValidComposition ys c) comps
compositions_for xs ys comps sub =
    All-mono comps λ c v. (v.0, IsValidComposition-mono xs ys sub c v.1)

-- what is left of `Validate` after its first three tests
abbrev rest : CompositeConfig → List GoString → Checked Unit
rest cfg names =
    check_compositions names 0 [] [] cfg.compositions >> check_device_params cfg.device_params

sources_and_rest :
    (cfg : CompositeConfig)
    → ((check_sources cfg.driver.name 0 [] cfg.sources >>= rest cfg) ≡ ok tt) ↔ (
        (All (IsValidSource cfg.driver.name) cfg.sources × AllFresh [] (source_names cfg))
        × (Compositions (collected [] cfg.sources) [] [] cfg.compositions
            × HasParamsPath cfg.device_params))
sources_and_rest cfg =
    iff_with (sources_then cfg.driver.name cfg.sources (rest cfg)) (λ r. (r.0, rest_iff.0 r.1))
      (λ r. (r.0, rest_iff.1 r.1))
  where
    rest_iff : (rest cfg (collected [] cfg.sources) ≡ ok tt) ↔ (
        Compositions (collected [] cfg.sources) [] [] cfg.compositions
        × HasParamsPath cfg.device_params)
    rest_iff =
        seq_iff (check_compositions_iff (collected [] cfg.sources) 0 [] [] cfg.compositions)
          (check_params_iff cfg.device_params)

-- `Validate` finds no error exactly when the configuration is valid: every source is named, has a
-- driver other than the composite one and a class; source names, composition names and effective
-- class names are distinct; members, filters and selectors name configured sources; and each
-- composition is paired either by explicit pools or by constraints, one source needing none.
pub validate-iff_IsValid : (cfg : CompositeConfig) → (validate cfg ≡ ok tt) ↔ IsValid cfg
unfolding validate
validate-iff_IsValid cfg =
    iff_with
      (guard_iff _ (is_empty_iff cfg.driver.name) (
        guard_iff _ (is_nil_iff cfg.sources)
          (guard_iff _ (is_nil_iff cfg.compositions) (sources_and_rest cfg))))
      (λ r. record {
        driver = r.0;
        has_sources = r.1.0;
        has_compositions = r.1.1.0;
        sources = r.1.1.1.0.0;
        sources_distinct = (AllFresh-iff _).0 r.1.1.1.0.1;
        compositions =
            compositions_for _ _ cfg.compositions (λ k. (same_names cfg.sources k).0) r.1.1.1.1.0.0;
        names_distinct = (AllFresh-iff _).0 r.1.1.1.1.0.1;
        classes_distinct = (AllFresh-iff _).0 r.1.1.1.1.0.2;
        params = r.1.1.1.1.1;
      })
      (λ v. (
        v.driver,
        (
          v.has_sources,
          (
            v.has_compositions,
            (
              (v.sources, (AllFresh-iff _).1 v.sources_distinct),
              (
                (
                  compositions_for _ _ cfg.compositions (λ k. (same_names cfg.sources k).1)
                      v.compositions,
                  (AllFresh-iff _).1 v.names_distinct,
                  (AllFresh-iff _).1 v.classes_distinct,
                ),
                v.params,
              ),
            ),
          ),
        ),
      ))
