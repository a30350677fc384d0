-- ===== src/Config/Validation/Pairing.antt =====
-- The pairing mode of a composition: the checks of `Validate` against `IsExplicit` and `IsAuto`.
use composite_dra_driver.Prelude.{
  ℕ, ◌≡◌, refl, ◌≢◌, ◌↔◌, ◌⊎◌, inl, inr, Bool, true, false, not, ◌&&◌, ◌||◌, List, [], ◌∷◌, arith,
  GoString, codes, str_eq, str_eq_iff, is_empty, length, ltb, Bool-cases, if◌then◌else◌,
}
use composite_dra_driver.Prelude.Result.{ok, fail_if, guard_iff, last_iff, iff_with}
use composite_dra_driver.Config.{CompositionConfig}
use composite_dra_driver.Config.Validation.{
  check_explicit, is_nil, is_explicit, is_pairing_mode, member_sources, distinct,
  pools_need_explicit,
}
use composite_dra_driver.Config.Validation.Sets.{
  is_empty_iff, is_nil_iff, not-is_nil_iff, not_iff, AllFresh-iff, AllSame, AllSame-iff,
  Elem-distinct,
}
use composite_dra_driver.Config.Validation.Spec.{IsExplicit, IsAuto, IsAutoMode}
use composite_dra_driver.Config.Validation.Loops.{check_pools_iff}
use composite_dra_driver.Config.Validation.Transport.{SameNames, SameNames-sym, IsValidPools-mono}

pub is_empty-true_iff : (s : GoString) → (is_empty s ≡ true) ↔ (s ≡ [])
is_empty-true_iff [] = (λ h. refl, λ h. refl)
is_empty-true_iff (a ∷ s) = (λ h. cc, λ h. cc)

pub or_iff :
    {P Q : Type 0} {a b : Bool} → (a ≡ true) ↔ P → (b ≡ true) ↔ Q → ((a || b) ≡ true) ↔ (P ⊎ Q)
or_iff {a = true} p q = (λ h. inl (p.0 refl), λ h. refl)
or_iff {a = false} p q =
    (λ h. inr (q.0 h), λ h. elim h [ inl x ↦ (let e = p.1 x in cc) | inr y ↦ q.1 y ])

IsAutoMode-iff :
    (pm : GoString) → is_explicit pm ≡ false → (not (is_pairing_mode pm) ≡ false) ↔ IsAutoMode pm
IsAutoMode-iff pm e =
    iff_with (not_iff (is_pairing_mode pm)) (λ h. pm_iff.0 (rw e at h)) (λ h. rw e (pm_iff.1 h))
  where
    pm_iff : ((is_empty pm || str_eq pm (codes "auto") || false) ≡ true) ↔ IsAutoMode pm
    pm_iff =
        iff_with
          (or_iff (or_iff (is_empty-true_iff pm) (str_eq_iff pm (codes "auto")))
            ((λ h. h), (λ h. h)))
          (λ h. elim h [ inl x ↦ x | inr y ↦ cc ]) inl

constrained_iff :
    (c : CompositionConfig)
    → ((is_nil c.constraints && ltb 1 (length (distinct [] (member_sources c.members)))) ≡ false)
      ↔ ((c.constraints ≢ []) ⊎ AllSame (member_sources c.members))
constrained_iff c = elim (Bool-cases (is_nil c.constraints)) [
  | inl e ↦ rw e (
    λ h. inr ((AllSame-iff (member_sources c.members)).0 h),
    λ h. elim h [
      | inl n ↦ (let f = (is_nil_iff c.constraints).1 n in cc)
      | inr a ↦ (AllSame-iff (member_sources c.members)).1 a
    ],
  )
  | inr e ↦ rw e (λ h. inl ((is_nil_iff c.constraints).0 e), λ h. refl)
]

explicit_ne : {pm : GoString} → is_explicit pm ≡ true → ¬ IsAutoMode pm
unfolding codes
explicit_ne {pm} e (inl h) = (let q = (str_eq_iff pm (codes "explicit")).0 e in cc)
explicit_ne {pm} e (inr h) = (let q = (str_eq_iff pm (codes "explicit")).0 e in ground arith)

or_last : (b : Bool) → not (b || true) ≡ false
or_last b = ground arith

module _ (names : List GoString) (i : ℕ) (c : CompositionConfig) where
  same : SameNames (distinct [] (member_sources c.members)) (member_sources c.members)
  same k =
      iff_with (Elem-distinct k [] (member_sources c.members))
        (λ h. elim h [ inl m ↦ absurd m | inr m ↦ m ]) inr

  check_explicit_iff : (check_explicit names i c ≡ ok tt) ↔ IsExplicit names c
  unfolding check_explicit
  check_explicit_iff =
      iff_with
        (guard_iff _ (is_nil_iff c.node_pools) (
          guard_iff _ (is_empty_iff c.node_pool_label_key) (
            guard_iff _ (not-is_nil_iff c.constraints) (
              check_pools_iff names (distinct [] (member_sources c.members)) i 0 [] c.node_pools))))
        (λ r. record {
          has_pools = r.0;
          has_label_key = r.1.0;
          no_constraints = r.1.1.0;
          pools = IsValidPools-mono names names _ _ (λ k m. m) same c.node_pools r.1.1.1.0;
          labels = (AllFresh-iff _).0 r.1.1.1.1;
        })
        (λ v. (
          v.has_pools,
          (
            v.has_label_key,
            (
              v.no_constraints,
              (
                IsValidPools-mono names names _ _ (λ k m. m) (SameNames-sym _ _ same) c.node_pools
                    v.pools,
                (AllFresh-iff _).1 v.labels,
              ),
            ),
          ),
        ))

  abbrev pub PairingChecks : Type 0
  PairingChecks =
      (not (is_pairing_mode c.pairing_mode) ≡ false)
      × (((not (is_explicit c.pairing_mode)
              && (is_nil c.constraints && ltb 1 (length (distinct [] (member_sources c.members)))))
            ≡ false)
          × ((if is_explicit c.pairing_mode
                then check_explicit names i c
                else fail_if (not (is_nil c.node_pools)) (pools_need_explicit i))
              ≡ ok tt))

  abbrev pub Pairing : Type 0
  Pairing =
      ((c.pairing_mode ≡ codes "explicit") × IsExplicit names c)
      ⊎ (IsAutoMode c.pairing_mode × IsAuto c)

  pub pairing_iff : PairingChecks ↔ Pairing
  pairing_iff = elim (Bool-cases (is_explicit c.pairing_mode)) [
    | inl e ↦ rw e (
      λ r. inl ((str_eq_iff c.pairing_mode (codes "explicit")).0 e, check_explicit_iff.0 r.1.1),
      λ h. elim h [
        | inl x ↦ (
          or_last (is_empty c.pairing_mode || str_eq c.pairing_mode (codes "auto")),
          (refl, check_explicit_iff.1 x.1),
        )
        | inr y ↦ absurd (explicit_ne e y.0)
      ],
    )
    | inr e ↦ rw e (
      λ r. inr (
        (IsAutoMode-iff c.pairing_mode e).0 (rw e r.0),
        record {
          constrained = (constrained_iff c).0 r.1.0;
          no_pools = (last_iff _ (not-is_nil_iff c.node_pools)).0 r.1.1;
        },
      ),
      λ h. elim h [
        | inl x ↦ (let q = (str_eq_iff c.pairing_mode (codes "explicit")).1 x.0 in cc)
        | inr y ↦ (
          rw e at ((IsAutoMode-iff c.pairing_mode e).1 y.0),
          (
            (constrained_iff c).1 y.1.constrained,
            (last_iff _ (not-is_nil_iff c.node_pools)).1 y.1.no_pools,
          ),
        )
      ],
    )
  ]
