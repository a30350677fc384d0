-- ===== src/Command/Driver.antt =====
-- cmd/driver/main.go: how the driver starts. Each `klog.Fatal` is an error; the program is what it has
-- started when it waits for its end. `Environment` is what the flags, the files, the API server and
-- the kubelet give; its texts of errors are of the type `E`, its clients of the types `C` and `K`.
pub mod Started
pub mod Version
use composite_dra_driver.Prelude.{
  ℕ, Bool, true, false, List, [], ◌∷◌, Option, none, some, GoString, codes, is_empty, GoMap,
  join_path,
}
use composite_dra_driver.Prelude.Result.{Result, ok, err, fail_if, ◌>>=◌, ◌>>◌}
use composite_dra_driver.Resource.{Attributes}
use composite_dra_driver.Config.{CompositeConfig, DeviceParamsConfig}
use composite_dra_driver.Config.Loader.{LoadError, load_from_file}
use composite_dra_driver.Config.Validation.{ConfigError, validate}
use composite_dra_driver.Store.Devices.{DeviceStore, new_device_store}
use composite_dra_driver.Store.State.{StoredShadows, Bucket, StateError, new_state_store}
use composite_dra_driver.Shadow.Params.{DeviceParamsResolver}
use composite_dra_driver.Shadow.Params.Load.{
  SourceParamsYaml, ParamsError, new_device_params_resolver,
}
use composite_dra_driver.Plugin.{CompositePlugin}
use composite_dra_driver.Plugin.Lifecycle.{new_composite_plugin}
use composite_dra_driver.Plugin.Client.{GrpcClient, new_grpc_client}
use composite_dra_driver.Synthesizer.Start.{Synthesizer, new, fetch_node_labels}
use composite_dra_driver.Command.{build_rest_config, or_fatal}

-- the flags
pub record Flags : Type 0 where
  pub config_path : GoString
  pub node_name : GoString
  pub kubeconfig : GoString
  pub plugin_dir : GoString
  pub state_dir : GoString

pub record Environment (E C K V : Type 0) : Type 0 where
  pub read_file : GoString → Result E (List ℕ)
  pub unmarshal_config : List ℕ → Result E CompositeConfig
  pub from_flags : GoString → GoString → Result E C
  pub in_cluster : Result E C
  pub new_for_config : C → Result E K
  pub mkdir_all : GoString → Option E
  pub open_db : GoString → Result E (Option Bucket)
  pub init_fault : Option E
  pub list_fault : Option E
  pub marshal : StoredShadows → Result E GoString
  pub unmarshal : GoString → Result E StoredShadows
  pub node : K → GoString → Result E (GoMap GoString)
  pub unmarshal_params : List ℕ → Result E (GoMap (SourceParamsYaml V))
  pub parse_template : GoString → GoString → Result E GoString
  pub start_plugin : Option E
  pub cel_filter : Option (GoString → Attributes → Bool)

pub data StartError (E : Type 0) : Type 0 where
  node_name_required : StartError E
  load_config : LoadError E → StartError E
  invalid_config : ConfigError → StartError E
  rest_config kube_client : E → StartError E
  create_state_dir : E → StartError E
  open_state_store : StateError E → StartError E
  device_params_resolver : ParamsError E → StartError E
  create_socket_dir : GoString → E → StartError E
  start_kubelet_plugin : E → StartError E

-- what runs once the driver has started
pub record Driver (V C : Type 0) : Type 0 where
  pub params_resolver : Option (DeviceParamsResolver V)
  pub grpc_client : GrpcClient C
  pub plugin : CompositePlugin
  pub synthesizer : Synthesizer

fault_or_fatal {ℓ κ} : {E : Type ℓ} {F : Type κ} → (E → F) → Option E → Result F (Unit {0})
fault_or_fatal f none = ok tt
fault_or_fatal f (some e) = err (f e)

module _ {E C K V : Type 0} (env : Environment E C K V) (flags : Flags) where
  params_resolver_of :
      K → Option DeviceParamsConfig → Result (StartError E) (Option (DeviceParamsResolver V))
  unfolding or_fatal
  params_resolver_of client none = ok none
  params_resolver_of client (some params) = do
    resolver ← or_fatal device_params_resolver (
        new_device_params_resolver env.read_file env.unmarshal_params env.parse_template
          params.config_map_path flags.node_name
          (fetch_node_labels (env.node client flags.node_name)))
    ok (some resolver)

  -- after the API server's client is there
  start_parts : (Conn : Type 0) → CompositeConfig → K → Result (StartError E) (Driver V Conn)
  unfolding params_resolver_of or_fatal fault_or_fatal
  start_parts Conn cfg client = do
    made ← fault_or_fatal create_state_dir (env.mkdir_all flags.state_dir)
    let db = join_path (flags.state_dir ∷ codes "state.db" ∷ [])
    bucket ← or_fatal open_state_store (new_state_store db (env.open_db db) env.init_fault)
    resolver ← params_resolver_of client cfg.device_params
    let socket_dir = join_path (flags.plugin_dir ∷ cfg.driver.name ∷ [])
    dir_made ← fault_or_fatal (create_socket_dir socket_dir) (env.mkdir_all socket_dir)
    started ← fault_or_fatal start_kubelet_plugin env.start_plugin
    ok (record {
      params_resolver = resolver;
      grpc_client = new_grpc_client flags.plugin_dir;
      plugin =
          new_composite_plugin env.marshal env.unmarshal env.list_fault cfg.driver.name
            new_device_store (some bucket);
      synthesizer =
          new cfg env.cel_filter flags.node_name (env.node client flags.node_name) new_device_store;
    })

  -- `main`, until it waits
  unfoldable pub start : (Conn : Type 0) → Result (StartError E) (Driver V Conn)
  unfolding start_parts or_fatal
  start Conn = do
    named ← fail_if (is_empty flags.node_name) node_name_required
    cfg ← or_fatal load_config (load_from_file env.unmarshal_config env.read_file flags.config_path)
    valid ← or_fatal invalid_config (validate cfg)
    rest ← or_fatal rest_config (build_rest_config env.from_flags env.in_cluster flags.kubeconfig)
    client ← or_fatal kube_client (env.new_for_config rest)
    start_parts Conn cfg client
