-- ===== src/Shadow/Params/Load.antt =====
-- pkg/shadow/params.go: `NewDeviceParamsResolver` and `networkCIDR`. Reading the file, decoding YAML,
-- parsing a template (whose result is what `execute` is given) and `net.ParseCIDR` are parameters.
use composite_dra_driver.Prelude.{ℕ, List, [], ◌∷◌, GoString, GoMap, insert}
use composite_dra_driver.Prelude.Result.{Result, ok, err, ◌>>=◌}
use composite_dra_driver.Shadow.Params.{
  ParamEntry, OverrideEntry, SourceParamsConfig, DeviceParamsResolver,
}

pub record SourceParamsYaml {ℓ} (V : Type ℓ) : Type ℓ where
  pub params : GoString
  pub entries : List (ParamEntry V)
  pub overrides : List (OverrideEntry V)

pub data ParamsError (E : Type 0) : Type 0 where
  read_params_failed : GoString → E → ParamsError E
  parse_params_failed : E → ParamsError E
  parse_template_failed : GoString → E → ParamsError E

module _ {E V : Type 0} (read_file : GoString → Result E (List ℕ))
    (unmarshal : List ℕ → Result E (GoMap (SourceParamsYaml V)))
    (parse_template : GoString → GoString → Result E GoString) where
  -- one source of the file
  unfoldable pub source_params :
      GoString → SourceParamsYaml V → Result (ParamsError E) (SourceParamsConfig V)
  source_params name sp = elim (parse_template name sp.params) [
    | err e ↦ err (parse_template_failed name e)
    | ok tmpl ↦
        ok (record { params_template = tmpl; entries = sp.entries; overrides = sp.overrides })
  ]

  -- the loop over the sources of the file, in the order in which `range` visits them
  unfoldable pub load_sources :
      GoMap (SourceParamsYaml V)
      → GoMap (SourceParamsConfig V)
      → Result (ParamsError E) (GoMap (SourceParamsConfig V))
  unfolding source_params
  load_sources [] sources = ok sources
  load_sources ((name, sp) ∷ raw) sources = do
    config ← source_params name sp
    load_sources raw (insert name config sources)

  unmarshalled :
      Result E (GoMap (SourceParamsYaml V)) → Result (ParamsError E) (GoMap (SourceParamsYaml V))
  unmarshalled (err e) = err (parse_params_failed e)
  unmarshalled (ok raw) = ok raw

  file_of : GoString → Result E (List ℕ) → Result (ParamsError E) (List ℕ)
  file_of path (err e) = err (read_params_failed path e)
  file_of path (ok data_) = ok data_

  unfoldable pub new_device_params_resolver :
      GoString → GoString → GoMap GoString → Result (ParamsError E) (DeviceParamsResolver V)
  unfolding load_sources unmarshalled file_of
  new_device_params_resolver path node_name node_labels = do
    data_ ← file_of path (read_file path)
    raw ← unmarshalled (unmarshal data_)
    sources ← load_sources raw []
    ok (record { node_name = node_name; node_labels = node_labels; sources = sources })

-- `parse_cidr` gives the network's text; an address that does not parse is returned as it is
unfoldable pub network_cidr {ℓ} :
    {E : Type ℓ} → (GoString → Result E GoString) → GoString → GoString
network_cidr parse_cidr ip_cidr = elim (parse_cidr ip_cidr) [
  | err e ↦ ip_cidr
  | ok network ↦ network
]
