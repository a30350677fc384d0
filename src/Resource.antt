-- ===== src/Resource.antt =====
-- The parts of the Kubernetes API types (k8s.io/api) that the driver reads and writes, as plain
-- records: a pointer field is an `Option`.
use composite_dra_driver.Prelude.{
  Bool, true, false, Option, none, some, ℤ, pos, negsuc, suc, ◌++◌, GoString, codes, decimal, GoMap,
}

pub record DeviceAttribute : Type 0 where
  pub int_value : Option ℤ
  pub bool_value : Option Bool
  pub string_value : Option GoString
  pub version_value : Option GoString

abbrev pub no_attribute : DeviceAttribute
no_attribute = record {
  int_value = none;
  bool_value = none;
  string_value = none;
  version_value = none;
}

abbrev pub int_attribute : ℤ → DeviceAttribute
int_attribute n = record no_attribute { int_value = some n }

abbrev pub string_attribute : GoString → DeviceAttribute
string_attribute s = record no_attribute { string_value = some s }

abbrev pub Attributes : Type 0
Attributes = GoMap DeviceAttribute

-- `fmt.Sprintf("%d", n)`
unfoldable pub print_int : ℤ → GoString
print_int (pos n) = decimal n
print_int (negsuc n) = codes "-" ++ decimal (suc n)

-- `fmt.Sprintf("%t", b)`
unfoldable pub print_bool : Bool → GoString
print_bool true = codes "true"
print_bool false = codes "false"
