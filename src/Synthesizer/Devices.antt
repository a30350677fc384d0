-- ===== src/Synthesizer/Devices.antt =====
-- pkg/synthesizer/pairer.go: the device types and the helpers on names and attributes.
use composite_dra_driver.Prelude.{
  arith, ℕ, ◌+◌, Bool, ◌&&◌, List, [], ◌∷◌, ◌++◌, map, Option, none, some, ℤ, negsuc, GoString,
  codes, is_empty, GoMap, lookup, has_suffix, leb, ◌==◌, if◌then◌else◌,
}
use composite_dra_driver.Store.Devices.{HasNoSlash}
use composite_dra_driver.Resource.{Attributes, print_int, print_bool}
use composite_dra_driver.Store.{DeviceMapping}

pub record SourceDevice : Type 0 where
  pub source_name : GoString
  pub driver : GoString
  pub pool : GoString
  pub device_name : GoString
  pub device_class_name : GoString
  pub attributes : Attributes

pub record CompositeDevice : Type 0 where
  pub name : GoString
  pub attributes : Attributes
  pub mapping : DeviceMapping

-- Source names with their devices: a combo, a group, or what is available.
abbrev pub DeviceMap : Type 0
DeviceMap = GoMap (List SourceDevice)

-- the tests of `getAttributeString` on the pointers, in their order
attribute_text : Option GoString → Option ℤ → Option Bool → Option GoString
attribute_text (some s) i b = some s
attribute_text none (some i) b = some (print_int i)
attribute_text none none (some b) = some (print_bool b)
attribute_text none none none = none

-- `none` is the result `"", false`
unfoldable pub get_attribute_string : Attributes → GoString → Option GoString
unfolding attribute_text
get_attribute_string attrs full_key = elim (lookup full_key attrs) [
  | none ↦ none
  | some attr ↦ attribute_text attr.string_value attr.int_value attr.bool_value
]

unfoldable pub qualified_attr_name : GoString → GoString → GoString
qualified_attr_name domain name = if is_empty domain then name else domain ++ (codes "/" ++ name)

-- `strings.ReplaceAll(s, old, "-")` for a text of one byte
replace_all : ℕ → GoString → GoString
replace_all old = map (λ c. if c == old then b'-' else c)

-- `strings.ToLower`, for ASCII
to_lower : GoString → GoString
to_lower = map (λ c. if leb b'A' c && leb c b'Z' then c + 32 else c)

unfoldable pub sanitize_name : GoString → GoString
unfolding replace_all to_lower
sanitize_name s = to_lower (replace_all b'.' (replace_all b'/' (replace_all b':' s)))

-- the first attribute whose key ends in `numaNode` and that has an integer
numa_attribute : Attributes → Option ℤ
numa_attribute [] = none
numa_attribute ((key, attr) ∷ attrs) =
    let rest = numa_attribute attrs in
    if has_suffix key (codes "numaNode")
    then elim attr.int_value [ some n ↦ some n | none ↦ rest ]
    else rest

numa_device : List SourceDevice → Option ℤ
unfolding numa_attribute
numa_device [] = none
numa_device (dev ∷ devs) = elim (numa_attribute dev.attributes) [
  | some n ↦ some n
  | none ↦ numa_device devs
]

numa_combo : DeviceMap → Option ℤ
unfolding numa_device
numa_combo [] = none
numa_combo ((source, devs) ∷ combo) = elim (numa_device devs) [
  | some n ↦ some n
  | none ↦ numa_combo combo
]

-- -1 where no device has the attribute; `range_combo` is the order in which `range combo` visits the
-- sources
unfoldable pub detect_numa_node : (DeviceMap → DeviceMap) → DeviceMap → ℤ
unfolding numa_combo
detect_numa_node range_combo combo = elim (numa_combo (range_combo combo)) [
  | some n ↦ n
  | none ↦ negsuc 0
]

pub sanitize_name-HasNoSlash : (s : GoString) → HasNoSlash (sanitize_name s)
unfolding sanitize_name replace_all to_lower
sanitize_name-HasNoSlash [] = tt
sanitize_name-HasNoSlash (c ∷ s) = (ground arith, sanitize_name-HasNoSlash s)
