-- ===== src/Config/Validation/Spec.antt =====
-- What a configuration has to be, said without reference to the order of the checks.
use composite_dra_driver.Prelude.{
  ◌≤◌, ◌≡◌, ◌≢◌, ◌⊎◌, List, [], map, Option, none, some, ℤ, pos, negsuc, GoString, codes, lookup,
  Elem, All, AllDistinct,
}
use composite_dra_driver.Config.{
  CompositeConfig, SourceConfig, CompositionConfig, MemberConfig, ConstraintConfig,
  ExplicitNodePool, ExplicitPairConfig, DeviceParamsConfig, effective_device_class_name,
}
use composite_dra_driver.Config.Validation.{member_sources}
use composite_dra_driver.Config.Validation.Sets.{AllSame}

abbrev pub AtLeastOne : ℤ → Type 0
AtLeastOne (pos k) = 1 ≤ k
AtLeastOne (negsuc k) = ⊥

abbrev pub NonNegative : ℤ → Type 0
NonNegative (pos k) = Unit
NonNegative (negsuc k) = ⊥

pub record IsValidSource (driver_name : GoString) (s : SourceConfig) : Type 0 where
  pub named : s.name ≢ []
  pub has_driver : s.driver ≢ []
  pub has_class : s.device_class_name ≢ []
  -- no composition of compositions
  pub is_leaf : s.driver ≢ driver_name

abbrev pub IsValidMember : List GoString → MemberConfig → Type 0
IsValidMember sources m = Elem m.source sources × AtLeastOne m.count

abbrev pub IsValidConstraint : ConstraintConfig → Type 0
IsValidConstraint c = (c.kind ≡ codes "matchAttribute") × (c.attribute ≢ [])

-- Each selector is for a member, and each member has one.
pub record IsValidPair (sources members : List GoString) (ep : ExplicitPairConfig) : Type 0 where
  pub selectors_known :
      All
        (λ (s : GoString × GoString). Elem s.0 sources × Elem s.0 members × (s.1 ≢ []))
        ep.selectors
  pub members_selected :
      (src : GoString) → Elem src members → (cel : GoString) × (lookup src ep.selectors ≡ some cel)
  pub rail : NonNegative ep.rail
  pub numa : NonNegative ep.numa

pub record IsValidPool (sources members : List GoString) (np : ExplicitNodePool) : Type 0 where
  pub labelled : np.label ≢ []
  pub has_pairs : np.pairs ≢ []
  pub pairs : All (IsValidPair sources members) np.pairs

pub record IsExplicit (sources : List GoString) (c : CompositionConfig) : Type 0 where
  pub has_pools : c.node_pools ≢ []
  pub has_label_key : c.node_pool_label_key ≢ []
  pub no_constraints : c.constraints ≡ []
  pub pools : All (IsValidPool sources (member_sources c.members)) c.node_pools
  pub labels : AllDistinct (map (λ np. np.label) c.node_pools)

-- Devices of several sources are paired by a constraint only.
pub record IsAuto (c : CompositionConfig) : Type 0 where
  pub constrained : (c.constraints ≢ []) ⊎ AllSame (member_sources c.members)
  pub no_pools : c.node_pools ≡ []

abbrev pub IsAutoMode : GoString → Type 0
IsAutoMode pm = (pm ≡ []) ⊎ (pm ≡ codes "auto")

pub record IsValidComposition (sources : List GoString) (c : CompositionConfig) : Type 0 where
  pub has_members : c.members ≢ []
  pub members : All (IsValidMember sources) c.members
  pub constraints : All IsValidConstraint c.constraints
  pub filters : (name : GoString) → Elem name (map (λ f. f.0) c.filters) → Elem name sources
  pub pairing :
      ((c.pairing_mode ≡ codes "explicit") × IsExplicit sources c)
      ⊎ (IsAutoMode c.pairing_mode × IsAuto c)
  pub transport :
      (c.transport_mode ≡ [])
      ⊎ (c.transport_mode ≡ codes "auto")
      ⊎ (c.transport_mode ≡ codes "ethernet")
      ⊎ (c.transport_mode ≡ codes "infiniband")

abbrev pub source_names : CompositeConfig → List GoString
source_names cfg = map (λ s. s.name) cfg.sources

abbrev pub HasParamsPath : Option DeviceParamsConfig → Type 0
HasParamsPath none = Unit
HasParamsPath (some p) = p.config_map_path ≢ []

pub record IsValid (cfg : CompositeConfig) : Type 0 where
  pub driver : cfg.driver.name ≢ []
  pub has_sources : cfg.sources ≢ []
  pub has_compositions : cfg.compositions ≢ []
  pub sources : All (IsValidSource cfg.driver.name) cfg.sources
  pub sources_distinct : AllDistinct (source_names cfg)
  pub compositions :
      All (λ c. (c.name ≢ []) × IsValidComposition (source_names cfg) c) cfg.compositions
  pub names_distinct : AllDistinct (map (λ c. c.name) cfg.compositions)
  pub classes_distinct : AllDistinct (map effective_device_class_name cfg.compositions)
  pub params : HasParamsPath cfg.device_params
