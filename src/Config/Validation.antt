-- ===== src/Config/Validation.antt =====
-- pkg/config/validation.go: `Validate`, one function for each loop. A constructor of `ConfigError`
-- stands for each message, with the indices and the names that the message prints.
-- A set such as `sourceNames` is the list of its keys.
pub mod Sets
pub mod Spec
pub mod Loops
pub mod Transport
pub mod Pairing
pub mod Exact
use composite_dra_driver.Prelude.{
  ℕ, suc, ◌+◌, Bool, true, false, not, ◌&&◌, ◌||◌, List, [], ◌∷◌, map, Option, none, some, ℤ,
  lt_one, is_negative, GoString, codes, str_eq, is_empty, GoMap, lookup, has, length, ltb,
  if◌then◌else◌,
}
use composite_dra_driver.Prelude.Result.{Result, ok, err, ◌>>=◌, ◌>>◌, fail_if}
use composite_dra_driver.Config.{
  CompositeConfig, SourceConfig, CompositionConfig, MemberConfig, ConstraintConfig, FilterConfig,
  ExplicitNodePool, ExplicitPairConfig, DeviceParamsConfig, effective_device_class_name,
}

pub data ConfigError : Type 0 where
  driver_name_required no_sources no_compositions config_map_path_required : ConfigError
  source_name_required source_driver_required source_class_required : ℕ → ConfigError
  source_is_composite : ℕ → GoString → ConfigError
  duplicate_source : GoString → ConfigError
  composition_name_required no_members : ℕ → ConfigError
  duplicate_composition : GoString → ConfigError
  duplicate_device_class : GoString → ℕ → ConfigError
  member_source_unknown : ℕ → ℕ → GoString → ConfigError
  member_count_below_one : ℕ → ℕ → ConfigError
  constraint_type_required constraint_attribute_required : ℕ → ℕ → ConfigError
  constraint_type_unsupported : ℕ → ℕ → GoString → ConfigError
  filter_source_unknown : ℕ → GoString → ConfigError
  bad_pairing_mode constraint_needed bad_transport_mode : ℕ → ConfigError
  explicit_needs_pools explicit_needs_label_key explicit_with_constraints : ℕ → ConfigError
  pools_need_explicit : ℕ → ConfigError
  pool_label_required pool_without_pairs : ℕ → ℕ → ConfigError
  duplicate_pool_label : ℕ → ℕ → GoString → ConfigError
  selector_source_unknown selector_not_member : ℕ → ℕ → ℕ → GoString → ConfigError
  selector_empty selector_missing : ℕ → ℕ → ℕ → GoString → ConfigError
  rail_negative numa_negative : ℕ → ℕ → ℕ → ConfigError

abbrev pub Checked : Type 0 → Type 0
Checked = Result ConfigError

abbrev pub is_nil {ℓ} : {A : Type ℓ} → List A → Bool
is_nil [] = true
is_nil (x ∷ xs) = false

-- the loop over `cfg.Sources` from index `i`, with the names seen so far
pub check_sources : GoString → ℕ → List GoString → List SourceConfig → Checked (List GoString)
check_sources driver_name i source_names [] = ok source_names
check_sources driver_name i source_names (src ∷ srcs) = do
  fail_if (is_empty src.name) (source_name_required i)
  fail_if (is_empty src.driver) (source_driver_required i)
  fail_if (is_empty src.device_class_name) (source_class_required i)
  fail_if (str_eq src.driver driver_name) (source_is_composite i src.driver)
  fail_if (has src.name source_names) (duplicate_source src.name)
  check_sources driver_name (suc i) (src.name ∷ source_names) srcs

pub check_members : List GoString → ℕ → ℕ → List MemberConfig → Checked Unit
check_members source_names i j [] = ok tt
check_members source_names i j (member ∷ ms) = do
  fail_if (not (has member.source source_names)) (member_source_unknown i j member.source)
  fail_if (lt_one member.count) (member_count_below_one i j)
  check_members source_names i (suc j) ms

pub check_constraints : ℕ → ℕ → List ConstraintConfig → Checked Unit
check_constraints i j [] = ok tt
check_constraints i j (c ∷ cs) = do
  fail_if (is_empty c.kind) (constraint_type_required i j)
  fail_if (not (str_eq c.kind (codes "matchAttribute"))) (constraint_type_unsupported i j c.kind)
  fail_if (is_empty c.attribute) (constraint_attribute_required i j)
  check_constraints i (suc j) cs

pub check_filters : List GoString → ℕ → GoMap FilterConfig → Checked Unit
check_filters source_names i [] = ok tt
check_filters source_names i ((name, f) ∷ fs) = do
  fail_if (not (has name source_names)) (filter_source_unknown i name)
  check_filters source_names i fs

-- `uniqueSources` and `memberSources`
abbrev pub member_sources : List MemberConfig → List GoString
member_sources = map (λ m. m.source)

-- the keys of a set that is built by adding the names in turn
pub distinct : List GoString → List GoString → List GoString
distinct seen [] = seen
distinct seen (k ∷ ks) = distinct (if has k seen then seen else k ∷ seen) ks

-- the loop over `ep.Selectors`
pub check_selectors : List GoString → List GoString → ℕ → ℕ → ℕ → GoMap GoString → Checked Unit
check_selectors source_names sources i j k [] = ok tt
check_selectors source_names sources i j k ((src, cel_expr) ∷ rest) = do
  fail_if (not (has src source_names)) (selector_source_unknown i j k src)
  fail_if (not (has src sources)) (selector_not_member i j k src)
  fail_if (is_empty cel_expr) (selector_empty i j k src)
  check_selectors source_names sources i j k rest

abbrev pub is_none {ℓ} : {A : Type ℓ} → Option A → Bool
is_none none = true
is_none (some a) = false

-- the loop over `memberSources`
pub check_required : GoMap GoString → ℕ → ℕ → ℕ → List GoString → Checked Unit
check_required selectors i j k [] = ok tt
check_required selectors i j k (src ∷ srcs) = do
  fail_if (is_none (lookup src selectors)) (selector_missing i j k src)
  check_required selectors i j k srcs

pub check_pairs : List GoString → List GoString → ℕ → ℕ → ℕ → List ExplicitPairConfig → Checked Unit
check_pairs source_names sources i j k [] = ok tt
check_pairs source_names sources i j k (ep ∷ eps) = do
  check_selectors source_names sources i j k ep.selectors
  check_required ep.selectors i j k sources
  fail_if (is_negative ep.rail) (rail_negative i j k)
  fail_if (is_negative ep.numa) (numa_negative i j k)
  check_pairs source_names sources i j (suc k) eps

pub check_pools :
    List GoString → List GoString → ℕ → ℕ → List GoString → List ExplicitNodePool → Checked Unit
check_pools source_names sources i j pool_labels [] = ok tt
check_pools source_names sources i j pool_labels (np ∷ nps) = do
  fail_if (is_empty np.label) (pool_label_required i j)
  fail_if (has np.label pool_labels) (duplicate_pool_label i j np.label)
  fail_if (is_nil np.pairs) (pool_without_pairs i j)
  check_pairs source_names sources i j 0 np.pairs
  check_pools source_names sources i (suc j) (np.label ∷ pool_labels) nps

-- the block under `if pm == "explicit"`
pub check_explicit : List GoString → ℕ → CompositionConfig → Checked Unit
check_explicit source_names i comp = do
  fail_if (is_nil comp.node_pools) (explicit_needs_pools i)
  fail_if (is_empty comp.node_pool_label_key) (explicit_needs_label_key i)
  fail_if (not (is_nil comp.constraints)) (explicit_with_constraints i)
  check_pools source_names (distinct [] (member_sources comp.members)) i 0 [] comp.node_pools

abbrev pub is_explicit : GoString → Bool
is_explicit pm = str_eq pm (codes "explicit")

abbrev pub is_pairing_mode : GoString → Bool
is_pairing_mode pm = is_empty pm || str_eq pm (codes "auto") || is_explicit pm

abbrev pub is_transport_mode : GoString → Bool
is_transport_mode tm =
    is_empty tm
    || str_eq tm (codes "auto")
    || str_eq tm (codes "ethernet")
    || str_eq tm (codes "infiniband")

-- what `Validate` checks of one composition once its names are known to be fresh
pub check_composition : List GoString → ℕ → CompositionConfig → Checked Unit
check_composition source_names i comp = do
  fail_if (is_nil comp.members) (no_members i)
  check_members source_names i 0 comp.members
  check_constraints i 0 comp.constraints
  check_filters source_names i comp.filters
  fail_if (not (is_pairing_mode comp.pairing_mode)) (bad_pairing_mode i)
  fail_if
      (not (is_explicit comp.pairing_mode)
        && (is_nil comp.constraints && ltb 1 (length (distinct [] (member_sources comp.members)))))
      (constraint_needed i)
  if is_explicit comp.pairing_mode
      then check_explicit source_names i comp
      else fail_if (not (is_nil comp.node_pools)) (pools_need_explicit i)
  fail_if (not (is_transport_mode comp.transport_mode)) (bad_transport_mode i)

pub check_compositions :
    List GoString → ℕ → List GoString → List GoString → List CompositionConfig → Checked Unit
check_compositions source_names i comp_names class_names [] = ok tt
check_compositions source_names i comp_names class_names (comp ∷ comps) = do
  let dcn = effective_device_class_name comp
  fail_if (is_empty comp.name) (composition_name_required i)
  fail_if (has comp.name comp_names) (duplicate_composition comp.name)
  fail_if (has dcn class_names) (duplicate_device_class dcn i)
  check_composition source_names i comp
  check_compositions source_names (suc i) (comp.name ∷ comp_names) (dcn ∷ class_names) comps

pub check_device_params : Option DeviceParamsConfig → Checked Unit
check_device_params none = ok tt
check_device_params (some p) = fail_if (is_empty p.config_map_path) config_map_path_required

unfoldable pub validate : CompositeConfig → Checked Unit
unfolding check_sources check_members check_constraints check_filters distinct check_selectors
    check_required check_pairs check_pools check_explicit check_composition check_compositions
    check_device_params effective_device_class_name
validate cfg = do
  fail_if (is_empty cfg.driver.name) driver_name_required
  fail_if (is_nil cfg.sources) no_sources
  fail_if (is_nil cfg.compositions) no_compositions
  source_names ← check_sources cfg.driver.name 0 [] cfg.sources
  check_compositions source_names 0 [] [] cfg.compositions
  check_device_params cfg.device_params
