-- ===== src/Tests/Commands.antt =====
-- The commands at concrete inputs.
use composite_dra_driver.Prelude.{
  ℕ, ◌≡◌, ◌≢◌, ◌↔◌, refl, sym, ap, true, false, List, [], ◌∷◌, ◌++◌, none, some, GoString, codes,
  str_eq, has, GoMap, lookup, insert, is_empty, All,
}
use composite_dra_driver.Prelude.Result.{Result, ok}
use composite_dra_driver.Prelude.Run.{returns}
use composite_dra_driver.Config.Loader.{load_from_file, parse}
use composite_dra_driver.Config.Validation.{validate}
use composite_dra_driver.Store.Devices.{DeviceStore, new_device_store}
use composite_dra_driver.Store.State.{Bucket, new_state_store}
use composite_dra_driver.Synthesizer.Devices.{CompositeDevice}
use composite_dra_driver.Synthesizer.Pairer.{RangeOrders}
use composite_dra_driver.Synthesizer.Watcher.{ResourceSlice}
use composite_dra_driver.Synthesizer.Start.{new, synthesize}
use composite_dra_driver.Plugin.Client.{new_grpc_client}
use composite_dra_driver.Plugin.Lifecycle.{new_composite_plugin}
use composite_dra_driver.Plugin.Lifecycle.Persisted.{Reach-IsPersisted}
use composite_dra_driver.Command.{build_rest_config}
use composite_dra_driver.Command.Flags.{set, set_all, parts_of, with_defaults, split_n}
use composite_dra_driver.Command.Flags.Mappings.{
  IsMapping, set_iff, set_all-parts, with_defaults_lem,
}
use composite_dra_driver.Command.Driver.{Flags, Environment, Driver, start}
use composite_dra_driver.Command.Driver.Started.{start_works, start_records}
use composite_dra_driver.Command.Driver.Version.{check_kube_version, atoi, trim_right_plus}
use composite_dra_driver.Tests.Samples.{config}
use composite_dra_driver.Tests.Lifecycle.{encode, decode, codec, prepared}

set_iff_example : (set (codes "a=b=c") [] ≡ ok ((codes "a", codes "b=c") ∷ [])) ↔ (
    (k : GoString) × (v : GoString) × IsMapping (k, v)
    × (codes "a=b=c" ≡ k ++ (b'=' ∷ v))
    × ((codes "a", codes "b=c") ∷ [] ≡ insert k v []))
set_iff_example = set_iff (codes "a=b=c") [] ((codes "a", codes "b=c") ∷ [])

abbrev uses : List GoString
uses = codes "a=b" ∷ codes "c=d" ∷ codes "a=e" ∷ []

abbrev mappings : GoMap GoString
mappings = (codes "a", codes "e") ∷ (codes "c", codes "d") ∷ []

uses_set : set_all uses [] ≡ ok mappings
unfolding set_all set split_n insert str_eq codes
uses_set = refl

set_all-parts_example : set_all (parts_of mappings) [] ≡ ok mappings
set_all-parts_example = set_all-parts uses mappings uses_set

with_defaults_lem_example :
    (with_defaults [] [] mappings ≢ [])
    × All
        (λ (x : GoString × GoString). (is_empty x.0 ≡ false) × (is_empty x.1 ≡ false))
        (with_defaults [] [] mappings)
with_defaults_lem_example = with_defaults_lem uses mappings [] [] uses_set

-- what the earlier driver left
abbrev left : Bucket
left = (Reach-IsPersisted encode decode none codec prepared.1).b

abbrev environment : Environment ℕ (Unit {0}) (Unit {0}) ℕ
environment = record {
  read_file = λ path. ok [];
  unmarshal_config = λ bytes. ok config;
  from_flags = λ url path. ok tt;
  in_cluster = ok tt;
  new_for_config = λ c. ok tt;
  mkdir_all = λ path. none;
  open_db = λ path. ok (some left);
  init_fault = none;
  list_fault = none;
  marshal = encode;
  unmarshal = decode;
  node = λ client name. ok [];
  unmarshal_params = λ bytes. ok [];
  parse_template = λ name t. ok t;
  start_plugin = none;
  cel_filter = none;
}

abbrev flags : Flags
flags = record {
  config_path = codes "/etc/config.yaml";
  node_name = codes "node";
  kubeconfig = [];
  plugin_dir = codes "/plugins";
  state_dir = codes "/state";
}

abbrev driver : Driver ℕ (Unit {0})
driver = record {
  params_resolver = none;
  grpc_client = new_grpc_client (codes "/plugins");
  plugin = new_composite_plugin encode decode none (codes "composite") new_device_store (some left);
  synthesizer = new {E = ℕ} config none (codes "node") (ok []) new_device_store;
}

starts : start environment flags (Unit {0}) ≡ ok driver
unfolding start load_from_file parse validate has str_eq codes build_rest_config new_state_store
starts = refl

start_works_example :
    (validate driver.synthesizer.cfg ≡ ok tt)
    × ((visit : RangeOrders) (slices : Result ℕ (List ResourceSlice))
        → (r : DeviceStore × List CompositeDevice) × (synthesize visit slices driver.synthesizer
            ≡ returns r))
start_works_example = start_works environment flags (Unit {0}) driver starts

start_records_example :
    lookup (codes "u") driver.plugin.shadow_claims ≡ lookup (codes "u") prepared.0.shadow_claims
start_records_example =
    start_records environment flags (Unit {0}) driver none (codes "u") codec prepared.1
      (ap ok (sym (Reach-IsPersisted encode decode none codec prepared.1).saved)) refl refl starts

old_minor : check_kube_version {E = ℕ} (ok (codes "35+")) ≡ false
unfolding check_kube_version atoi trim_right_plus codes
old_minor = refl

new_minor : check_kube_version {E = ℕ} (ok (codes "36+")) ≡ true
unfolding check_kube_version atoi trim_right_plus codes
new_minor = refl
