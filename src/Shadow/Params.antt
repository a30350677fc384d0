-- ===== src/Shadow/Params.antt =====
-- pkg/shadow/params.go. A value of the YAML file is one of the type `V`; text/template's execution is
-- the parameter `execute`, on the data and on the function `device`.
pub mod Merged
pub mod Matching
pub mod Load
use composite_dra_driver.Prelude.{
  ℕ, Bool, true, false, List, [], ◌∷◌, Option, none, some, ℤ, pos, GoString, codes, is_empty,
  str_eq, has_prefix, GoMap, lookup, lookup_or, insert, ◌||◌, ◌&&◌, if◌then◌else◌,
}
use composite_dra_driver.Resource.{DeviceAttribute, Attributes, print_int, print_bool}

pub record AttributeMatcher : Type 0 where
  pub prefix : GoString
  pub exact : GoString

-- the values are `none` where the map is nil
pub record ParamEntry {ℓ} (V : Type ℓ) : Type ℓ where
  pub matchers : GoMap AttributeMatcher
  pub values : Option (GoMap V)

pub record OverrideEntry {ℓ} (V : Type ℓ) : Type ℓ where
  pub node_selector : GoMap GoString
  pub entries : List (ParamEntry V)

-- the template is what `execute` is given
pub record SourceParamsConfig {ℓ} (V : Type ℓ) : Type ℓ where
  pub params_template : GoString
  pub entries : List (ParamEntry V)
  pub overrides : List (OverrideEntry V)

pub record DeviceParamsResolver {ℓ} (V : Type ℓ) : Type ℓ where
  pub node_name : GoString
  pub node_labels : GoMap GoString
  pub sources : GoMap (SourceParamsConfig V)

-- the tests on the pointers
value_text : Option GoString → Option ℤ → Option Bool → Option GoString
value_text (some s) i b = some s
value_text none (some i) b = some (print_int i)
value_text none none (some b) = some (print_bool b)
value_text none none none = none

unfoldable pub get_attr_string : Attributes → GoString → Option GoString
unfolding value_text
get_attr_string attrs key = elim (lookup key attrs) [
  | none ↦ none
  | some attr ↦ value_text attr.string_value attr.int_value attr.bool_value
]

-- the two tests on the attribute's text
unfoldable pub matches_text : AttributeMatcher → Option GoString → Bool
matches_text matcher none = false
matches_text matcher (some attr_val) =
    (is_empty matcher.prefix || has_prefix attr_val matcher.prefix)
    && (is_empty matcher.exact || str_eq attr_val matcher.exact)

unfoldable pub matches_device : GoMap AttributeMatcher → Attributes → Bool
unfolding matches_text
matches_device [] attrs = true
matches_device ((key, matcher) ∷ matchers) attrs =
    if matches_text matcher (get_attr_string attrs key)
    then matches_device matchers attrs
    else false

unfoldable pub matches_node_selector : GoMap GoString → GoMap GoString → Bool
matches_node_selector [] labels = true
matches_node_selector ((k, v) ∷ selector) labels =
    if str_eq (lookup_or [] k labels) v then matches_node_selector selector labels else false

-- what the template's function `device` returns
pub data DeviceValue : Type 0 where
  string_value : GoString → DeviceValue
  int_value : ℤ → DeviceValue
  bool_value : Bool → DeviceValue
  nil : DeviceValue

device_value : Option GoString → Option ℤ → Option Bool → DeviceValue
device_value (some s) i b = string_value s
device_value none (some i) b = int_value i
device_value none none (some b) = bool_value b
device_value none none none = nil

pub device_func : Attributes → GoString → DeviceValue
unfolding device_value
device_func attrs key = elim (lookup key attrs) [
  | none ↦ nil
  | some attr ↦ device_value attr.string_value attr.int_value attr.bool_value
]

module _ {ℓ} {V : Type ℓ} where
  -- the first entry that matches; its values may be nil
  unfoldable pub find_matching_entry : List (ParamEntry V) → Attributes → Option (GoMap V)
  find_matching_entry [] attrs = none
  find_matching_entry (entry ∷ entries) attrs =
      if matches_device entry.matchers attrs
      then entry.values
      else find_matching_entry entries attrs

  -- the same for an override's entries; the base entries are not used
  unfoldable pub find_matching_entry_by_match :
      List (ParamEntry V) → Attributes → List (ParamEntry V) → Option (GoMap V)
  find_matching_entry_by_match [] attrs base = none
  find_matching_entry_by_match (entry ∷ entries) attrs base =
      if matches_device entry.matchers attrs
      then entry.values
      else find_matching_entry_by_match entries attrs base

  -- `dst[k] = v` for the entries of a map
  unfoldable pub copy_into : GoMap V → GoMap V → GoMap V
  copy_into [] dst = dst
  copy_into ((k, v) ∷ src) dst = copy_into src (insert k v dst)

  override_with : Option (GoMap V) → GoMap V → GoMap V
  override_with none merged = merged
  override_with (some values) merged = copy_into values merged

  -- the loop over the overrides
  pub apply_overrides :
      GoMap GoString → Attributes → List (ParamEntry V) → List (OverrideEntry V) → GoMap V → GoMap V
  unfolding override_with
  apply_overrides labels attrs base [] merged = merged
  apply_overrides labels attrs base (o ∷ os) merged = apply_overrides labels attrs base os (
      if matches_node_selector o.node_selector labels
      then override_with (find_matching_entry_by_match o.entries attrs base) merged
      else merged)

  -- `of_int` and `of_text` make values of a number and of a text
  unfoldable pub build_template_data :
      (ℕ → V) → (GoString → V) → GoMap V → ℕ → GoString → GoString → GoMap V
  build_template_data of_int of_text values pair_ordinal node_name source_name =
      insert (codes "SourceName") (of_text source_name) (
        insert (codes "NodeName") (of_text node_name)
          (insert (codes "PairOrdinal") (of_int pair_ordinal) (copy_into values [])))

  -- a failure of the template's execution is none
  module _ (of_int : ℕ → V) (of_text : GoString → V)
      (execute : GoString → (GoString → DeviceValue) → GoMap V → Option GoString) where
    resolve_from :
        DeviceParamsResolver V
        → GoString
        → Attributes
        → ℕ
        → SourceParamsConfig V
        → Option (GoMap V)
        → Option GoString
    unfolding apply_overrides device_func
    resolve_from r source_name attrs pair_ordinal src none = none
    resolve_from r source_name attrs pair_ordinal src (some base) =
        execute src.params_template (device_func attrs) (
          build_template_data of_int of_text
            (apply_overrides r.node_labels attrs src.entries src.overrides (copy_into base []))
            pair_ordinal r.node_name source_name)

    unfoldable pub resolve_for_device :
        DeviceParamsResolver V → GoString → Attributes → ℕ → Option GoString
    unfolding resolve_from
    resolve_for_device r source_name attrs pair_ordinal = elim (lookup source_name r.sources) [
      | none ↦ none
      | some src ↦
          resolve_from r source_name attrs pair_ordinal src (find_matching_entry src.entries attrs)
    ]
