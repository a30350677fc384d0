-- ===== src/Synthesizer/Pairer/NoPanic.antt =====
-- Under a configuration that `Validate` accepts, `ComputePairs` returns: no nil source is
-- dereferenced, and no index or slice is out of range.
use composite_dra_driver.Prelude.{
  ◌≡◌, inl, inr, ◌⊎◌, Bool, List, [], ◌∷◌, map, Option, none, some, GoString, codes, str_eq,
  str_eq_iff, GoMap, lookup, lookup-insert, All, All-mono, Elem, Bool-cases, arith,
}
use composite_dra_driver.Prelude.Run.{returns, for_each, Returns-at, Returns-bind, Returns-for_each}
use composite_dra_driver.Prelude.Result.{ok}
use composite_dra_driver.Config.{SourceConfig, CompositionConfig, CompositeConfig}
use composite_dra_driver.Config.Validation.{validate, is_nil}
use composite_dra_driver.Config.Validation.Spec.{IsValidComposition, IsValid, source_names}
use composite_dra_driver.Config.Validation.Sets.{is_nil_iff}
use composite_dra_driver.Config.Validation.Exact.{validate-iff_IsValid}
use composite_dra_driver.Resource.{Attributes}
use composite_dra_driver.Synthesizer.Devices.{CompositeDevice, DeviceMap}
use composite_dra_driver.Synthesizer.Matching.Runs.{Runs, IsPairable, match-Runs, single-Runs}
use composite_dra_driver.Synthesizer.Explicit.{pair_with_explicit}
use composite_dra_driver.Synthesizer.Explicit.Runs.{explicit-Runs, explicit-Runs_no_filter}
use composite_dra_driver.Synthesizer.Pairer.{
  RangeOrders, Pairer, new_pairer, source_map, compute_for_composition, compute_pairs,
}

lookup-source_map :
    (srcs : List SourceConfig) (m : GoMap SourceConfig) (k : GoString)
    → Elem k (map (λ s. s.name) srcs) ⊎ ((src : SourceConfig) × (lookup k m ≡ some src))
    → (src : SourceConfig) × (lookup k (source_map srcs m) ≡ some src)
unfolding source_map
lookup-source_map [] m k (inl h) = absurd h
lookup-source_map [] m k (inr h) = h
lookup-source_map (s ∷ srcs) m k (inl (inr h)) = lookup-source_map srcs _ k (inl h)
lookup-source_map (s ∷ srcs) m k (inl (inl e)) =
    lookup-source_map srcs _ k
      (inr (s, (ground (arith, lookup-insert s.name k s m, str_eq_iff s.name k))))
lookup-source_map (s ∷ srcs) m k (inr (src, e)) = lookup-source_map srcs _ k (
    inr (elim (Bool-cases (str_eq s.name k)) [
      | inl t ↦ (s, (rw (lookup-insert s.name k s m, t)))
      | inr f ↦ (src, (rw (lookup-insert s.name k s m, f) e))
    ]))

IsValidComposition-IsPairable :
    (cfg : CompositeConfig) (comp : CompositionConfig)
    → IsValidComposition (source_names cfg) comp
    → IsPairable (source_map cfg.sources []) comp
IsValidComposition-IsPairable cfg comp v = record {
  some_member = v.has_members;
  configured =
      All-mono comp.members (λ m h. lookup-source_map cfg.sources [] m.source (inl h.0)) v.members;
  counted = All-mono comp.members (λ m h. h.1) v.members;
}

module _ (range_combo : DeviceMap → DeviceMap) (sources : GoMap SourceConfig)
    (comp : CompositionConfig) (v : IsPairable sources comp) where
  explicit_any :
      (filter : Option (GoString → Attributes → Bool)) (labels : GoMap GoString)
      (by_source : DeviceMap)
      → Runs (pair_with_explicit range_combo sources filter labels comp by_source)
  explicit_any none labels by_source =
      explicit-Runs_no_filter range_combo sources labels comp by_source
  explicit_any (some matches) labels by_source =
      explicit-Runs range_combo sources comp v matches by_source labels

module _ (visit : RangeOrders) (p : Pairer) (by_source : DeviceMap) where
  composition-Runs :
      (comp : CompositionConfig)
      → IsPairable p.sources comp
      → Runs (compute_for_composition visit p by_source comp)
  unfolding compute_for_composition
  composition-Runs comp v = elim (Bool-cases (str_eq comp.pairing_mode (codes "explicit"))) [
    | inl e ↦ rw e (explicit_any visit.combo p.sources comp v p.cel_filter p.node_labels _)
    | inr e ↦ rw e (elim (Bool-cases (is_nil comp.constraints)) [
      | inl none_given ↦ rw none_given (single-Runs visit.combo p.sources comp v _)
      | inr given ↦ rw given (
          match-Runs visit.combo p.sources comp v visit.groups _
            ((is_nil_iff comp.constraints).0 given))
    ])
  ]

-- For a configuration without validation errors, whatever the filter, the node's labels, the devices
-- and the order of iteration over groups, `ComputePairs` returns a list of composite devices.
pub compute_pairs-returns :
    (cfg : CompositeConfig) (cel_filter : Option (GoString → Attributes → Bool))
    (node_labels : GoMap GoString) (visit : RangeOrders) (by_source : DeviceMap)
    → validate cfg ≡ ok tt
    → (cds : List CompositeDevice) × (compute_pairs visit
          (new_pairer cfg.sources cfg.compositions cel_filter node_labels)
          by_source
        ≡ returns cds)
unfolding compute_pairs new_pairer
compute_pairs-returns cfg cel_filter node_labels visit by_source valid =
    (let (cds, e, _) = Returns-at (λ _. Unit) _ all_run in (cds, e))
  where
    p : Pairer
    p = new_pairer cfg.sources cfg.compositions cel_filter node_labels

    v : IsValid cfg
    v = (validate-iff_IsValid cfg).0 valid

    all_run : Runs (compute_pairs visit p by_source)
    all_run =
        Returns-bind (All (λ _. Unit)) (λ _. Unit)
          (for_each (compute_for_composition visit p by_source) cfg.compositions) _
          (Returns-for_each (IsPairable p.sources) (λ _. Unit)
            (compute_for_composition visit p by_source) cfg.compositions
            (composition-Runs visit p by_source)
            (All-mono cfg.compositions (λ c h. IsValidComposition-IsPairable cfg c h.1)
              v.compositions))
          (λ results _. tt)
