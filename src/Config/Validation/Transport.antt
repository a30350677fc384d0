-- ===== src/Config/Validation/Transport.antt =====
-- Validity speaks of names as sets: it is the same for two lists with the same names.
use composite_dra_driver.Prelude.{◌↔◌, inl, inr, List, GoString, Elem, All, All-mono}
use composite_dra_driver.Config.{ExplicitPairConfig, ExplicitNodePool, CompositionConfig}
use composite_dra_driver.Config.Validation.Spec.{IsValidPair, IsValidPool, IsValidComposition}

-- Two lists with the same names.
abbrev pub SameNames : List GoString → List GoString → Type 0
SameNames xs ys = (k : GoString) → Elem k xs ↔ Elem k ys

pub SameNames-sym : (xs ys : List GoString) → SameNames xs ys → SameNames ys xs
SameNames-sym xs ys h k = ((h k).1, (h k).0)

module _ (xs ys ms ns : List GoString) (sub : (k : GoString) → Elem k xs → Elem k ys)
    (same : SameNames ms ns) where
  IsValidPair-mono : (ep : ExplicitPairConfig) → IsValidPair xs ms ep → IsValidPair ys ns ep
  IsValidPair-mono ep v = record {
    selectors_known =
        All-mono ep.selectors (λ s h. (sub s.0 h.0, (same s.0).0 h.1, h.2)) v.selectors_known;
    members_selected = λ src m. v.members_selected src ((same src).1 m);
    rail = v.rail;
    numa = v.numa;
  }

  pub IsValidPools-mono :
      (nps : List ExplicitNodePool) → All (IsValidPool xs ms) nps → All (IsValidPool ys ns) nps
  IsValidPools-mono nps = All-mono nps λ np v. record {
    labelled = v.labelled;
    has_pairs = v.has_pairs;
    pairs = All-mono np.pairs IsValidPair-mono v.pairs;
  }

module _ (xs ys : List GoString) (sub : (k : GoString) → Elem k xs → Elem k ys) where
  pub IsValidComposition-mono :
      (c : CompositionConfig) → IsValidComposition xs c → IsValidComposition ys c
  IsValidComposition-mono c v = record {
    has_members = v.has_members;
    members = All-mono c.members (λ m h. (sub m.source h.0, h.1)) v.members;
    constraints = v.constraints;
    filters = λ name m. sub name (v.filters name m);
    pairing = elim v.pairing [
      | inl e ↦ inl (
        e.0,
        record {
          has_pools = e.1.has_pools;
          has_label_key = e.1.has_label_key;
          no_constraints = e.1.no_constraints;
          pools =
              IsValidPools-mono xs ys _ _ sub (λ k. ((λ m. m), (λ m. m))) c.node_pools e.1.pools;
          labels = e.1.labels;
        },
      )
      | inr a ↦ inr a
    ];
    transport = v.transport;
  }
