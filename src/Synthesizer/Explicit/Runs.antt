-- ===== src/Synthesizer/Explicit/Runs.antt =====
-- With members that are configured and counted, explicit pairing returns.
use composite_dra_driver.Prelude.{
  inl, inr, Bool, List, [], ◌∷◌, Option, none, some, ℤ, pos, negsuc, len_lt, GoString, GoMap,
  lookup, lookup_or, insert, length, All, Bool-cases, Option-cases,
}
use composite_dra_driver.Prelude.Run.{returns, ◌>>=◌, Returns-bind}
use composite_dra_driver.Config.{SourceConfig, MemberConfig, CompositionConfig, ExplicitPairConfig}
use composite_dra_driver.Config.Validation.Spec.{AtLeastOne}
use composite_dra_driver.Resource.{Attributes}
use composite_dra_driver.Synthesizer.Devices.{SourceDevice, CompositeDevice, DeviceMap}
use composite_dra_driver.Synthesizer.Build.{build_composite_device}
use composite_dra_driver.Synthesizer.Matching.Runs.{Runs, IsPairable, builds}
use composite_dra_driver.Synthesizer.Explicit.{
  Consumed, find_pool, no_consumed, first_devices, matched_for, pair_members, consume, place,
  explicit_pairs, pair_with_explicit,
}

first_devices-Runs :
    (matched : List SourceDevice) (k : ℤ) → AtLeastOne k → Runs (first_devices matched k)
unfolding first_devices
first_devices-Runs matched (pos k) h = tt
first_devices-Runs matched (negsuc k) h = absurd h

pair_members-Runs :
    (matches : GoString → Attributes → Bool) (by_source : DeviceMap) (consumed : Consumed)
    (selectors : GoMap GoString) (ms : List MemberConfig) (combo : DeviceMap)
    → All (λ m. AtLeastOne m.count) ms
    → Runs (pair_members matches by_source consumed selectors ms combo)
unfolding pair_members
pair_members-Runs matches by_source consumed selectors [] combo h = tt
pair_members-Runs matches by_source consumed selectors (m ∷ ms) combo (c, h) =
    elim (Option-cases (lookup m.source selectors)) [
      | inl e ↦ rw (e, pair_members) tt
      | inr (sel, e) ↦
          rw (e, pair_members)
            (elim (Bool-cases
              (len_lt (length (matched_for matches by_source consumed m sel)) m.count)) [
                | inl short ↦ rw short tt
                | inr enough ↦ rw enough (
                    Returns-bind (λ _. Unit) (λ _. Unit)
                      (first_devices (matched_for matches by_source consumed m sel) m.count) _
                      (first_devices-Runs _ m.count c)
                      (λ chosen _.
                        pair_members-Runs matches by_source consumed selectors ms
                          (insert m.source chosen combo) h))
              ])
    ]

module _ (range_combo : DeviceMap → DeviceMap) (sources : GoMap SourceConfig)
    (comp : CompositionConfig) (v : IsPairable sources comp)
    (matches : GoString → Attributes → Bool) (by_source : DeviceMap) where
  found-Runs :
      (ep : ExplicitPairConfig) (eps : List ExplicitPairConfig) (consumed : Consumed)
      → ((consumed' : Consumed)
          → Runs (explicit_pairs range_combo sources matches comp by_source eps consumed'))
      → (found : Option DeviceMap)
      → Runs {A = List CompositeDevice} (elim found [
        | none ↦ explicit_pairs range_combo sources matches comp by_source eps consumed
        | some combo ↦ (do
          cd ← build_composite_device range_combo sources comp combo
          rest ←
              explicit_pairs range_combo sources matches comp by_source eps (consume combo consumed)
          returns (place ep cd ∷ rest))
      ])
  found-Runs ep eps consumed rest none = rest consumed
  found-Runs ep eps consumed rest (some combo) =
      Returns-bind (λ _. Unit) (λ _. Unit) (build_composite_device range_combo sources comp combo) _
        (builds range_combo sources comp v combo)
        (λ cd _.
          Returns-bind (λ _. Unit) (λ _. Unit)
            (explicit_pairs range_combo sources matches comp by_source eps (consume combo consumed))
            _ (rest (consume combo consumed)) (λ cds _. tt))

  explicit_pairs-Runs :
      (eps : List ExplicitPairConfig) (consumed : Consumed)
      → Runs (explicit_pairs range_combo sources matches comp by_source eps consumed)
  unfolding explicit_pairs
  explicit_pairs-Runs [] consumed = tt
  explicit_pairs-Runs (ep ∷ eps) consumed =
      Returns-bind (λ _. Unit) (λ _. Unit)
        (pair_members matches by_source consumed ep.selectors comp.members []) _
        (pair_members-Runs matches by_source consumed ep.selectors comp.members [] v.counted)
        (λ found _. found-Runs ep eps consumed (explicit_pairs-Runs eps) found)

  pub explicit-Runs :
      (labels : GoMap GoString)
      → Runs (pair_with_explicit range_combo sources (some matches) labels comp by_source)
  unfolding pair_with_explicit
  explicit-Runs labels =
      elim (Option-cases
        (find_pool (lookup_or [] comp.node_pool_label_key labels) comp.node_pools)) [
          | inl e ↦ rw (e, pair_with_explicit) tt
          | inr (pool, e) ↦
              rw (e, pair_with_explicit)
                (Returns-bind (λ _. Unit) (λ _. Unit)
                  (explicit_pairs range_combo sources matches comp by_source pool.pairs
                    (no_consumed comp.members []))
                  _ (explicit_pairs-Runs pool.pairs (no_consumed comp.members [])) (λ result _. tt))
        ]

pub explicit-Runs_no_filter :
    (range_combo : DeviceMap → DeviceMap) (sources : GoMap SourceConfig) (labels : GoMap GoString)
    (comp : CompositionConfig) (by_source : DeviceMap)
    → Runs (pair_with_explicit range_combo sources none labels comp by_source)
unfolding pair_with_explicit
explicit-Runs_no_filter range_combo sources labels comp by_source = tt
