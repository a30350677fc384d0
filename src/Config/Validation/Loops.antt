-- ===== src/Config/Validation/Loops.antt =====
-- The loops of `Validate`, each with the condition under which it finds no error.
use composite_dra_driver.Prelude.{
  ℕ, zero, suc, ◌≡◌, refl, sym, ◌∙◌, ◌≢◌, ◌↔◌, inl, inr, false, not, List, [], ◌∷◌, map, Option,
  none, some, pos, negsuc, ℤ, lt_one, is_negative, arith, GoString, codes, GoMap, lookup, Elem, All,
  str_eq, str_eq_iff,
}
use composite_dra_driver.Prelude.Result.{ok, guard_iff, seq_iff, iff_with}
use composite_dra_driver.Config.{
  MemberConfig, ConstraintConfig, FilterConfig, ExplicitNodePool, ExplicitPairConfig,
}
use composite_dra_driver.Config.Validation.{
  check_members, check_constraints, check_filters, check_selectors, check_required, check_pairs,
  check_pools, is_none,
}
use composite_dra_driver.Config.Validation.Sets.{
  is_empty_iff, is_nil_iff, not_iff, not-has_iff, has-false_iff, AllFresh,
}
use composite_dra_driver.Config.Validation.Spec.{
  AtLeastOne, NonNegative, IsValidMember, IsValidConstraint, IsValidPair, IsValidPool,
}

AtLeastOne-iff : (k : ℤ) → (lt_one k ≡ false) ↔ AtLeastOne k
AtLeastOne-iff (pos zero) = (λ h. cc, λ h. absurd (omega arith))
AtLeastOne-iff (pos (suc k)) = (λ h. omega arith, λ h. refl)
AtLeastOne-iff (negsuc k) = (λ h. cc, λ h. absurd h)

NonNegative-iff : (k : ℤ) → (is_negative k ≡ false) ↔ NonNegative k
NonNegative-iff (pos k) = (λ h. tt, λ h. refl)
NonNegative-iff (negsuc k) = (λ h. cc, λ h. absurd h)

pub check_members_iff :
    (names : List GoString) (i j : ℕ) (ms : List MemberConfig)
    → (check_members names i j ms ≡ ok tt) ↔ All (IsValidMember names) ms
unfolding check_members
check_members_iff names i j [] = (λ h. tt, λ h. refl)
check_members_iff names i j (m ∷ ms) =
    iff_with
      (guard_iff _ (not-has_iff m.source names)
        (guard_iff _ (AtLeastOne-iff m.count) (check_members_iff names i (suc j) ms)))
      (λ r. ((r.0, r.1.0), r.1.1)) (λ v. (v.0.0, (v.0.1, v.1)))

is_match_iff :
    (s : GoString)
    → (not (str_eq s (codes "matchAttribute")) ≡ false) ↔ (s ≡ codes "matchAttribute")
is_match_iff s = iff_with (not_iff _) (str_eq_iff s _).0 (str_eq_iff s _).1

match_ne_nil : codes "matchAttribute" ≢ []
unfolding codes
match_ne_nil e = cc

pub check_constraints_iff :
    (i j : ℕ) (cs : List ConstraintConfig)
    → (check_constraints i j cs ≡ ok tt) ↔ All IsValidConstraint cs
unfolding check_constraints
check_constraints_iff i j [] = (λ h. tt, λ h. refl)
check_constraints_iff i j (c ∷ cs) =
    iff_with
      (guard_iff _ (is_empty_iff c.kind) (
        guard_iff _ (is_match_iff c.kind)
          (guard_iff _ (is_empty_iff c.attribute) (check_constraints_iff i (suc j) cs))))
      (λ r. ((r.1.0, r.1.1.0), r.1.1.1))
      (λ v. ((λ e. match_ne_nil (sym v.0.0 ∙ e)), (v.0.0, (v.0.1, v.1))))

pub check_filters_iff :
    (names : List GoString) (i : ℕ) (fs : GoMap FilterConfig)
    → (check_filters names i fs ≡ ok tt) ↔ All (λ name. Elem name names) (map (λ f. f.0) fs)
unfolding check_filters
check_filters_iff names i [] = (λ h. tt, λ h. refl)
check_filters_iff names i ((name, f) ∷ fs) =
    guard_iff _ (not-has_iff name names) (check_filters_iff names i fs)

abbrev IsValidSelector : List GoString → List GoString → GoString × GoString → Type 0
IsValidSelector names sources s = Elem s.0 names × Elem s.0 sources × (s.1 ≢ [])

check_selectors_iff :
    (names sources : List GoString) (i j k : ℕ) (m : GoMap GoString)
    → (check_selectors names sources i j k m ≡ ok tt) ↔ All (IsValidSelector names sources) m
unfolding check_selectors
check_selectors_iff names sources i j k [] = (λ h. tt, λ h. refl)
check_selectors_iff names sources i j k ((src, cel) ∷ m) =
    iff_with
      (guard_iff _ (not-has_iff src names) (
        guard_iff _ (not-has_iff src sources)
          (guard_iff _ (is_empty_iff cel) (check_selectors_iff names sources i j k m))))
      (λ r. ((r.0, r.1.0, r.1.1.0), r.1.1.1)) (λ v. (v.0.0, (v.0.1, (v.0.2, v.1))))

abbrev IsSelected : GoMap GoString → GoString → Type 0
IsSelected m src = (cel : GoString) × (lookup src m ≡ some cel)

is_none_iff : (o : Option GoString) → (is_none o ≡ false) ↔ ((cel : GoString) × (o ≡ some cel))
is_none_iff none = (λ h. cc, λ h. (let e = h.1 in cc))
is_none_iff (some cel) = (λ h. (cel, refl), λ h. refl)

check_required_iff :
    (m : GoMap GoString) (i j k : ℕ) (srcs : List GoString)
    → (check_required m i j k srcs ≡ ok tt) ↔ All (IsSelected m) srcs
unfolding check_required
check_required_iff m i j k [] = (λ h. tt, λ h. refl)
check_required_iff m i j k (src ∷ srcs) =
    guard_iff _ (is_none_iff (lookup src m)) (check_required_iff m i j k srcs)

All-Elem :
    (P : GoString → Type 0) (xs : List GoString) → All P xs → (x : GoString) → Elem x xs → P x
All-Elem P (y ∷ xs) (p, h) x (inl e) = rw e p
All-Elem P (y ∷ xs) (p, h) x (inr m) = All-Elem P xs h x m
All-Elem P [] h x m = elim m [ ]

Elem-All :
    (P : GoString → Type 0) (xs : List GoString) → ((x : GoString) → Elem x xs → P x) → All P xs
Elem-All P [] f = tt
Elem-All P (y ∷ xs) f = (f y (inl refl), Elem-All P xs (λ x m. f x (inr m)))

pub All_iff :
    (P : GoString → Type 0) (xs : List GoString) → All P xs ↔ ((x : GoString) → Elem x xs → P x)
All_iff P xs = (All-Elem P xs, Elem-All P xs)

module _ (names sources : List GoString) (i j : ℕ) where
  check_pairs_iff :
      (k : ℕ) (eps : List ExplicitPairConfig)
      → (check_pairs names sources i j k eps ≡ ok tt) ↔ All (IsValidPair names sources) eps
  unfolding check_pairs
  check_pairs_iff k [] = (λ h. tt, λ h. refl)
  check_pairs_iff k (ep ∷ eps) =
      iff_with
        (seq_iff (check_selectors_iff names sources i j k ep.selectors) (
          seq_iff (check_required_iff ep.selectors i j k sources) (
            guard_iff _ (NonNegative-iff ep.rail)
              (guard_iff _ (NonNegative-iff ep.numa) (check_pairs_iff (suc k) eps)))))
        (λ r. (
          record {
            selectors_known = r.0;
            members_selected = All-Elem (IsSelected ep.selectors) sources r.1.0;
            rail = r.1.1.0;
            numa = r.1.1.1.0;
          },
          r.1.1.1.1,
        ))
        (λ v. (
          v.0.selectors_known,
          (
            Elem-All (IsSelected ep.selectors) sources v.0.members_selected,
            (v.0.rail, (v.0.numa, v.1)),
          ),
        ))

module _ (names sources : List GoString) (i : ℕ) where
  pub check_pools_iff :
      (j : ℕ) (seen : List GoString) (nps : List ExplicitNodePool)
      → (check_pools names sources i j seen nps ≡ ok tt)
        ↔ (All (IsValidPool names sources) nps × AllFresh seen (map (λ np. np.label) nps))
  unfolding check_pools
  check_pools_iff j seen [] = (λ h. (tt, tt), λ h. refl)
  check_pools_iff j seen (np ∷ nps) =
      iff_with
        (guard_iff _ (is_empty_iff np.label) (
          guard_iff _ (has-false_iff np.label seen) (
            guard_iff _ (is_nil_iff np.pairs) (
              seq_iff (check_pairs_iff names sources i j 0 np.pairs)
                (check_pools_iff (suc j) (np.label ∷ seen) nps)))))
        (λ r. (
          (record { labelled = r.0; has_pairs = r.1.1.0; pairs = r.1.1.1.0 }, r.1.1.1.1.0),
          (r.1.0, r.1.1.1.1.1),
        ))
        (λ v. (v.0.0.labelled, (v.1.0, (v.0.0.has_pairs, (v.0.0.pairs, (v.0.1, v.1.1))))))
