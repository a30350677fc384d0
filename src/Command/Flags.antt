-- ===== src/Command/Flags.antt =====
-- cmd/webhook/main.go: the flag `--resource-mapping`, and the mappings that the webhook serves. Package
-- flag calls `Set` for each use of the flag, in their order, and exits on its first error.
pub mod Mappings
use composite_dra_driver.Prelude.{
  List, [], ◌∷◌, ◌++◌, map, GoString, codes, is_empty, str_eq, GoMap, insert, join, ◌==◌,
  if◌then◌else◌,
}
use composite_dra_driver.Prelude.Result.{Result, ok, err, ◌>>=◌}

pub data FlagError : Type 0 where
  invalid_mapping : GoString → FlagError

-- a byte before the first part
before_first : GoString → List GoString → List GoString
before_first s [] = []
before_first s (part ∷ parts) = (s ++ part) ∷ parts

-- `strings.SplitN(val, "=", 2)`
unfoldable pub split_n : GoString → List GoString
unfolding before_first
split_n [] = [] ∷ []
split_n (c ∷ s) =
    let rest = before_first (c ∷ []) (split_n s) in if c == b'=' then [] ∷ s ∷ [] else rest

-- the checks on the parts
set_parts : GoString → List GoString → GoMap GoString → Result FlagError (GoMap GoString)
set_parts val (k ∷ v ∷ []) f =
    if is_empty k
    then err (invalid_mapping val)
    else if is_empty v
    then err (invalid_mapping val)
    else ok (insert k v f)
set_parts val parts f = err (invalid_mapping val)

unfoldable pub set : GoString → GoMap GoString → Result FlagError (GoMap GoString)
unfolding set_parts
set val f = set_parts val (split_n val) f

-- the loop of `String`
unfoldable pub parts_of : GoMap GoString → List GoString
parts_of [] = []
parts_of ((k, v) ∷ f) = (k ++ (b'=' ∷ v)) ∷ parts_of f

-- `String`, for the order in which `range` visits the map
unfoldable pub string : GoMap GoString → GoString
unfolding parts_of
string f = join (codes ",") (parts_of f)

-- the uses of the flag, one after the other
unfoldable pub set_all : List GoString → GoMap GoString → Result FlagError (GoMap GoString)
set_all [] f = ok f
set_all (val ∷ vals) f = do f' ← set val f; set_all vals f'

or_default : GoString → GoString → GoString
or_default default s = if is_empty s then default else s

-- the deprecated flags, where no mapping was given
unfoldable pub with_defaults : GoString → GoString → GoMap GoString → GoMap GoString
unfolding or_default codes
with_defaults device_class resource_name [] =
    insert (or_default (codes "composite.dra/gpu-nic-pair") resource_name)
      (or_default (codes "composite-gpu-nic") device_class) []
with_defaults device_class resource_name (m ∷ ms) = m ∷ ms
