-- ===== src/Synthesizer/Pairer/Built.antt =====
-- What holds of every composite device that is built holds of all that `ComputePairs` returns.
use composite_dra_driver.Prelude.{
  List, [], ◌∷◌, Option, none, some, Bool, Bool-cases, inl, inr, GoString, GoMap, lookup_or, All,
  All-concat, All-of_all, str_eq, codes,
}
use composite_dra_driver.Prelude.Run.{
  returns, ◌>>=◌, for_each, IfReturns, IfReturns-bind, IfReturns-for_each, IfReturns-any,
}
use composite_dra_driver.Config.{
  SourceConfig, ConstraintConfig, CompositionConfig, ExplicitPairConfig, ExplicitNodePool,
}
use composite_dra_driver.Config.Validation.{is_nil}
use composite_dra_driver.Resource.{Attributes}
use composite_dra_driver.Synthesizer.Devices.{CompositeDevice, DeviceMap}
use composite_dra_driver.Synthesizer.Groupings.{generate_combinations}
use composite_dra_driver.Synthesizer.Build.{build_composite_device}
use composite_dra_driver.Synthesizer.Matching.{
  Groups, group_members, pair_group, pair_by, pair_with_match_attribute, pair_single_source,
  all_present, sort_by_name,
}
use composite_dra_driver.Synthesizer.Matching.Order.{All-sort_by_name}
use composite_dra_driver.Synthesizer.Explicit.{
  Consumed, find_pool, no_consumed, pair_members, consume, place, explicit_pairs,
  pair_with_explicit,
}
use composite_dra_driver.Synthesizer.Pairer.{
  RangeOrders, Pairer, filter_members, compute_for_composition, compute_pairs,
}

module _ (P : CompositeDevice → Type 0)
    (built : (range_combo : DeviceMap → DeviceMap) (sources : GoMap SourceConfig)
        (comp : CompositionConfig) (combo : DeviceMap)
      → IfReturns P (build_composite_device range_combo sources comp combo))
    (placed : (ep : ExplicitPairConfig) (cd : CompositeDevice) → P cd → P (place ep cd)) where
  module _ (range_combo : DeviceMap → DeviceMap) (sources : GoMap SourceConfig)
      (comp : CompositionConfig) where
    all_built :
        (combos : List DeviceMap)
        → IfReturns (All P) (for_each (build_composite_device range_combo sources comp) combos)
    all_built combos =
        IfReturns-for_each (λ _. Unit) P (build_composite_device range_combo sources comp) combos
          (λ combo _. built range_combo sources comp combo)
          (All-of_all (λ _. Unit) (λ combo. tt) combos)

    group_built :
        (g : GoString × DeviceMap) → IfReturns (All P) (pair_group range_combo sources comp g)
    unfolding pair_group
    group_built (val, group) = elim (Bool-cases (all_present group comp.members)) [
      | inr e ↦ rw e tt
      | inl e ↦ rw e (
          IfReturns-bind (λ _. Unit) (All P) (generate_combinations group comp.members)
            (for_each (build_composite_device range_combo sources comp)) (IfReturns-any _)
            λ combos _. all_built combos)
    ]

    by_built :
        (visit : Groups → Groups) (by_source : DeviceMap) (cs : List ConstraintConfig)
        → IfReturns (All P) (pair_by range_combo sources visit comp by_source cs)
    unfolding pair_by
    by_built visit by_source [] = tt
    by_built visit by_source (c ∷ cs) =
        let groups = visit (group_members c.attribute by_source comp.members []) in
        IfReturns-bind (All (All P)) (All P) (for_each (pair_group range_combo sources comp) groups)
          _
          (IfReturns-for_each (λ _. Unit) (All P) (pair_group range_combo sources comp) groups
            (λ g _. group_built g) (All-of_all (λ _. Unit) (λ g. tt) groups))
          λ results r. All-sort_by_name P _ (All-concat P results r)

    single_built :
        (by_source : DeviceMap)
        → IfReturns (All P) (pair_single_source range_combo sources comp by_source)
    unfolding pair_single_source
    single_built by_source =
        IfReturns-bind (λ _. Unit) (All P) (generate_combinations by_source comp.members) _
          (IfReturns-any _)
          λ combos _.
            IfReturns-bind (All P) (All P)
              (for_each (build_composite_device range_combo sources comp) combos) _
              (all_built combos) λ results r. All-sort_by_name P results r

    module _ (matches : GoString → Attributes → Bool) (by_source : DeviceMap) where
      found_built :
          (ep : ExplicitPairConfig) (eps : List ExplicitPairConfig) (consumed : Consumed)
          → ((consumed' : Consumed)
              → IfReturns
                  (All P)
                  (explicit_pairs range_combo sources matches comp by_source eps consumed'))
          → (found : Option DeviceMap)
          → IfReturns {A = List CompositeDevice} (All P) (elim found [
            | none ↦ explicit_pairs range_combo sources matches comp by_source eps consumed
            | some combo ↦ (do
              cd ← build_composite_device range_combo sources comp combo
              rest ←
                  explicit_pairs range_combo sources matches comp by_source eps
                    (consume combo consumed)
              returns (place ep cd ∷ rest))
          ])
      found_built ep eps consumed rest none = rest consumed
      found_built ep eps consumed rest (some combo) =
          IfReturns-bind P (All P) (build_composite_device range_combo sources comp combo) _
            (built range_combo sources comp combo)
            λ cd p.
              IfReturns-bind (All P) (All P)
                (explicit_pairs range_combo sources matches comp by_source eps
                  (consume combo consumed))
                _ (rest (consume combo consumed)) λ cds ps. (placed ep cd p, ps)

      explicit_pairs_built :
          (eps : List ExplicitPairConfig) (consumed : Consumed)
          → IfReturns
              (All P)
              (explicit_pairs range_combo sources matches comp by_source eps consumed)
      unfolding explicit_pairs
      explicit_pairs_built [] consumed = tt
      explicit_pairs_built (ep ∷ eps) consumed =
          IfReturns-bind (λ _. Unit) (All P)
            (pair_members matches by_source consumed ep.selectors comp.members []) _
            (IfReturns-any _)
            λ found _. found_built ep eps consumed (explicit_pairs_built eps) found

      pool_built :
          (pool : Option ExplicitNodePool)
          → IfReturns {A = List CompositeDevice} (All P) (elim pool [
            | none ↦ returns []
            | some pool' ↦ (do
              result ←
                  explicit_pairs range_combo sources matches comp by_source pool'.pairs
                    (no_consumed comp.members [])
              returns (sort_by_name result))
          ])
      pool_built none = tt
      pool_built (some pool) =
          let consumed = no_consumed comp.members [] in
          IfReturns-bind (All P) (All P)
            (explicit_pairs range_combo sources matches comp by_source pool.pairs consumed) _
            (explicit_pairs_built pool.pairs consumed) λ cds ps. All-sort_by_name P cds ps

    explicit_built :
        (filter : Option (GoString → Attributes → Bool)) (labels : GoMap GoString)
        (by_source : DeviceMap)
        → IfReturns (All P) (pair_with_explicit range_combo sources filter labels comp by_source)
    unfolding pair_with_explicit
    explicit_built none labels by_source = tt
    explicit_built (some matches) labels by_source =
        pool_built matches by_source
          (find_pool (lookup_or [] comp.node_pool_label_key labels) comp.node_pools)

    match_built :
        (visit : Groups → Groups) (by_source : DeviceMap)
        → IfReturns (All P) (pair_with_match_attribute range_combo sources visit comp by_source)
    unfolding pair_with_match_attribute
    match_built visit by_source = by_built visit by_source comp.constraints

  composition_built :
      (visit : RangeOrders) (p : Pairer) (by_source : DeviceMap) (comp : CompositionConfig)
      → IfReturns (All P) (compute_for_composition visit p by_source comp)
  unfolding compute_for_composition
  composition_built visit p by_source comp =
      let filtered = filter_members p.cel_filter comp.filters by_source comp.members [] in
      elim (Bool-cases (str_eq comp.pairing_mode (codes "explicit"))) [
        | inl e ↦
            rw e (explicit_built visit.combo p.sources comp p.cel_filter p.node_labels filtered)
        | inr e ↦ elim (Bool-cases (is_nil comp.constraints)) [
          | inl n ↦ rw (e, n) (single_built visit.combo p.sources comp filtered)
          | inr n ↦ rw (e, n) (match_built visit.combo p.sources comp visit.groups filtered)
        ]
      ]

  pub compute_pairs_built :
      (visit : RangeOrders) (p : Pairer) (by_source : DeviceMap)
      → IfReturns (All P) (compute_pairs visit p by_source)
  unfolding compute_pairs
  compute_pairs_built visit p by_source =
      IfReturns-bind (All (All P)) (All P)
        (for_each (compute_for_composition visit p by_source) p.compositions) _
        (IfReturns-for_each (λ _. Unit) (All P) (compute_for_composition visit p by_source)
          p.compositions (λ comp _. composition_built visit p by_source comp)
          (All-of_all (λ _. Unit) (λ comp. tt) p.compositions))
        λ results r. All-concat P results r
