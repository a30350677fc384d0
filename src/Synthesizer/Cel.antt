-- ===== src/Synthesizer/Cel.antt =====
-- pkg/synthesizer/cel.go: the filter, with its cache as the state that `Match` passes on. Compiling
-- an expression and evaluating a program are the parameters `compile` and `eval`.
pub mod Cache
use composite_dra_driver.Prelude.{
  ℕ, ◌==◌, Bool, true, false, List, [], ◌∷◌, ◌++◌, reverse, Option, none, some, ℤ, GoString, GoMap,
  lookup, lookup_or, insert, if◌then◌else◌,
}
use composite_dra_driver.Prelude.Result.{Result, ok, err}
use composite_dra_driver.Resource.{DeviceAttribute, Attributes}

-- a value of the expression language, as far as the driver makes or reads one
pub data Value : Type 0 where
  bool_value : Bool → Value
  string_value : GoString → Value
  int_value : ℤ → Value
  nil other : Value

attribute_value : Option Bool → Option GoString → Option ℤ → Value
attribute_value (some b) s i = bool_value b
attribute_value none (some s) i = string_value s
attribute_value none none (some i) = int_value i
attribute_value none none none = nil

unfoldable pub attr_to_value : DeviceAttribute → Value
unfolding attribute_value
attr_to_value attr = attribute_value attr.bool_value attr.string_value attr.int_value

-- the loop from the end of the key: what is behind the last slash, and what is before it
split_rev : GoString → GoString → GoString × GoString
split_rev [] name = ([], name)
split_rev (c ∷ before) name =
    let rest = split_rev before (c ∷ name) in if c == b'/' then (reverse before, name) else rest

unfoldable pub split_attr_key : GoString → GoString × GoString
unfolding split_rev
split_attr_key key = split_rev (reverse key) []

-- `device.attributes`: the attributes of each domain
abbrev pub CelDevice : Type 0
CelDevice = GoMap (GoMap Value)

add_attributes : Attributes → CelDevice → CelDevice
unfolding split_attr_key attr_to_value
add_attributes [] m = m
add_attributes ((key, attr) ∷ attrs) m =
    let (domain, name) = split_attr_key key in
    add_attributes attrs
      (insert domain (insert name (attr_to_value attr) (lookup_or [] domain m)) m)

unfoldable pub build_device_map : Attributes → CelDevice
unfolding add_attributes
build_device_map attrs = add_attributes attrs []

-- `out.Value().(bool)` where the value is a Boolean
abbrev pub is_true : Value → Bool
is_true (bool_value b) = b
is_true (string_value s) = false
is_true (int_value i) = false
is_true nil = false
is_true other = false

module _ {ℓ κ} {Program : Type ℓ} {Error : Type κ} (compile : GoString → Result Error Program)
    (eval : Program → CelDevice → Result Error Value) where
  -- the program, and the cache with it
  keep : GoString → GoMap Program → Result Error Program → Result Error Program × GoMap Program
  keep expression cache (err e) = (err e, cache)
  keep expression cache (ok prog) = (ok prog, insert expression prog cache)

  pub get_program : GoString → GoMap Program → Result Error Program × GoMap Program
  unfolding keep
  get_program expression cache = elim (lookup expression cache) [
    | some prog ↦ (ok prog, cache)
    | none ↦ keep expression cache (compile expression)
  ]

  pub evaluate : Attributes → Result Error Program → Bool
  unfolding build_device_map
  evaluate attrs (err e) = false
  evaluate attrs (ok prog) = elim (eval prog (build_device_map attrs)) [
    | err e ↦ false
    | ok out ↦ is_true out
  ]

  unfoldable pub match_attributes : GoString → Attributes → GoMap Program → Bool × GoMap Program
  unfolding get_program evaluate
  match_attributes expression attrs cache =
      let (prog, cache') = get_program expression cache in (evaluate attrs prog, cache')
