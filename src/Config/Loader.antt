-- ===== src/Config/Loader.antt =====
-- pkg/config/loader.go. `os.ReadFile` and `yaml.Unmarshal` are parameters.
use composite_dra_driver.Prelude.{ℕ, List, GoString}
use composite_dra_driver.Prelude.Result.{Result, ok, err}
use composite_dra_driver.Config.{CompositeConfig}

pub data LoadError (E : Type 0) : Type 0 where
  read_failed : GoString → E → LoadError E
  parse_failed : E → LoadError E

module _ {E : Type 0} (unmarshal : List ℕ → Result E CompositeConfig) where
  unfoldable pub parse : List ℕ → Result (LoadError E) CompositeConfig
  parse bytes = elim (unmarshal bytes) [ ok cfg ↦ ok cfg | err e ↦ err (parse_failed e) ]

  unfoldable pub load_from_file :
      (GoString → Result E (List ℕ)) → GoString → Result (LoadError E) CompositeConfig
  load_from_file read_file path = elim (read_file path) [
    | ok bytes ↦ parse bytes
    | err e ↦ err (read_failed path e)
  ]
