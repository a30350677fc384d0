-- ===== src/Synthesizer/Build.antt =====
-- pkg/synthesizer/pairer.go: `buildCompositeDevice`. A member whose source is not configured makes
-- `src` nil, and the loop over its devices panics; so does `comp.Members[0]` without members.
pub mod Members
pub mod Origin
pub mod Names
use composite_dra_driver.Prelude.{
  ℕ, zero, suc, ◌++◌, Bool, true, false, List, [], ◌∷◌, Option, none, some, ℤ, pos, negsuc, one_lt,
  is_negative, not, GoString, codes, decimal, str_eq, truncate, GoMap, lookup, lookup_or, insert,
  if◌then◌else◌,
}
use composite_dra_driver.Prelude.Run.{Run, returns, panics, ◌>>=◌, deref}
use composite_dra_driver.Config.{
  SourceConfig, MemberConfig, ConstraintConfig, CompositionConfig, AttributeGroup,
}
use composite_dra_driver.Resource.{DeviceAttribute, Attributes, int_attribute, string_attribute}
use composite_dra_driver.Store.{DeviceMember, DeviceMapping}
use composite_dra_driver.Synthesizer.Devices.{
  SourceDevice, CompositeDevice, DeviceMap, qualified_attr_name, sanitize_name, detect_numa_node,
}

-- the loop over `ag.Attributes`
forward_group : GoString → GoString → Attributes → List GoString → Attributes → Attributes
forward_group prefix domain dev_attrs [] attrs = attrs
forward_group prefix domain dev_attrs (attr_name ∷ names) attrs =
    forward_group prefix domain dev_attrs names
      (elim (lookup (qualified_attr_name domain attr_name) dev_attrs) [
        | some val ↦ insert (prefix ++ (codes "/" ++ attr_name)) val attrs
        | none ↦ attrs
      ])

-- the loop over `src.ForwardAttributes`
pub forward_attributes : GoString → Attributes → List AttributeGroup → Attributes → Attributes
unfolding forward_group
forward_attributes prefix dev_attrs [] attrs = attrs
forward_attributes prefix dev_attrs (ag ∷ ags) attrs =
    forward_attributes prefix dev_attrs ags
      (forward_group prefix ag.domain dev_attrs ag.attributes attrs)

-- the local variables of the loops over members and devices
pub record Built : Type 0 where
  pub attrs : Attributes
  pub members : List DeviceMember
  pub name_parts : List GoString

pub suffix_of : ℤ → ℕ → GoString
suffix_of count i = if one_lt count then codes "-" ++ decimal i else []

-- one round of the loop over a member's devices
pub add_device : SourceConfig → ℤ → ℕ → SourceDevice → Built → Built
unfolding suffix_of forward_attributes
add_device src count i dev b = record {
  attrs =
      forward_attributes (src.name ++ suffix_of count i) dev.attributes src.forward_attributes
        b.attrs;
  members =
      b.members
      ++ record {
        source_name = src.name;
        driver = src.driver;
        pool = dev.pool;
        device = dev.device_name;
        device_class_name = src.device_class_name;
        attributes = dev.attributes;
      }
        ∷ [];
  name_parts = b.name_parts ++ sanitize_name dev.device_name ∷ [];
}

pub add_devices : Option SourceConfig → ℤ → ℕ → List SourceDevice → Built → Run Built
unfolding add_device
add_devices src count i [] b = returns b
add_devices none count i (dev ∷ devs) b = panics
add_devices (some src) count i (dev ∷ devs) b =
    add_devices (some src) count (suc i) devs (add_device src count i dev b)

pub add_members : GoMap SourceConfig → DeviceMap → List MemberConfig → Built → Run Built
unfolding add_devices
add_members sources combo [] b = returns b
add_members sources combo (m ∷ ms) b = do
  b' ← add_devices (lookup m.source sources) m.count 0 (lookup_or [] m.source combo) b
  add_members sources combo ms b'

-- the attribute of the first device, if there is one
promote : GoString → List SourceDevice → Attributes → Attributes
promote attribute [] attrs = attrs
promote attribute (dev ∷ devs) attrs = elim (lookup attribute dev.attributes) [
  | some val ↦ insert attribute val attrs
  | none ↦ attrs
]

-- the loop over `comp.Constraints`
pub promote_all :
    List MemberConfig → DeviceMap → List ConstraintConfig → Attributes → Run Attributes
unfolding promote
promote_all ms combo [] attrs = returns attrs
promote_all [] combo (c ∷ cs) attrs =
    let rest = promote_all [] combo cs attrs in
    if str_eq c.kind (codes "matchAttribute") then panics else rest
promote_all (m ∷ ms) combo (c ∷ cs) attrs = promote_all (m ∷ ms) combo cs (
    if str_eq c.kind (codes "matchAttribute")
    then promote c.attribute (lookup_or [] m.source combo) attrs
    else attrs)

-- `strings.Join(parts, "--")`
join : List GoString → GoString
join [] = []
join (part ∷ []) = part
join (part ∷ next ∷ parts) = part ++ (codes "--" ++ join (next ∷ parts))

numa_attrs : ℤ → Attributes → Attributes
numa_attrs node attrs =
    if is_negative node
    then attrs
    else insert (codes "composite/numaNode") (int_attribute node) attrs

finish :
    (DeviceMap → DeviceMap) → CompositionConfig → DeviceMap → Built → Attributes → CompositeDevice
unfolding join numa_attrs
finish range_combo comp combo b attrs =
    let numa_node = detect_numa_node range_combo combo in
    record {
      name = truncate 63 (join b.name_parts);
      attributes =
          insert (codes "composite/compositionName") (string_attribute comp.name)
            (numa_attrs numa_node attrs);
      mapping = record {
        composition_name = comp.name;
        members = b.members;
        rail_index = pos 0;
        numa_node = numa_node;
      };
    }

unfoldable pub build_composite_device :
    (DeviceMap → DeviceMap)
    → GoMap SourceConfig
    → CompositionConfig
    → DeviceMap
    → Run CompositeDevice
unfolding add_members promote_all finish
build_composite_device range_combo sources comp combo = do
  b ← add_members sources combo comp.members (record { attrs = []; members = []; name_parts = [] })
  attrs ← promote_all comp.members combo comp.constraints b.attrs
  returns (finish range_combo comp combo b attrs)
