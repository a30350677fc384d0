-- ===== src/Command/Server.antt =====
-- cmd/webhook/main.go: how the webhook starts. `main` is `start`: each `klog.Fatal` is an error, as is
-- a flag that package flag refuses; the program is what it serves and runs when it waits for its end.
pub mod Released
use composite_dra_driver.Prelude.{
  ℕ, suc, ℤ, pos, negsuc, List, [], ◌∷◌, GoString, codes, decimal, GoMap,
}
use composite_dra_driver.Prelude.Result.{Result, ok, err, ◌>>=◌}
use composite_dra_driver.Command.{build_rest_config, or_fatal}
use composite_dra_driver.Command.Flags.{FlagError, set_all, with_defaults}

-- the flags, each use of `--resource-mapping` as it is written
pub record ServerFlags : Type 0 where
  pub port : ℤ
  pub metrics_port : ℤ
  pub tls_cert : GoString
  pub tls_key : GoString
  pub kubeconfig : GoString
  pub device_class : GoString
  pub resource_name : GoString
  pub resource_mapping : List GoString
  pub reconcile_interval : ℤ
  pub reconcile_grace : ℤ

-- what the files and the API server give: configurations, clients and key pairs of any types
pub record ServerEnvironment (E C K T : Type 0) : Type 0 where
  pub from_flags : GoString → GoString → Result E C
  pub in_cluster : Result E C
  pub new_for_config : C → Result E K
  pub load_key_pair : GoString → GoString → Result E T

pub data ServerError (E : Type 0) : Type 0 where
  refused_flag : FlagError → ServerError E
  build_rest_config_failed create_kube_client load_tls_certs : E → ServerError E

-- what a path of a server leads to
pub data Route : Type 0 where
  mutate_handler healthz metrics : Route

pub record Server (K T : Type 0) : Type 0 where
  pub addr : GoString
  pub routes : GoMap Route
  pub certificates : List T
  pub mappings : GoMap GoString
  pub metrics_addr : GoString
  pub metrics_routes : GoMap Route
  pub client : K
  pub reconcile_interval : ℤ
  pub reconcile_grace : ℤ

-- `fmt.Sprintf(":%d", port)`
address : ℤ → GoString
address (pos n) = b':' ∷ decimal n
address (negsuc n) = b':' ∷ b'-' ∷ decimal (suc n)

module _ {E C K T : Type 0} where
  -- `main`, until it waits
  unfoldable pub start :
      ServerEnvironment E C K T → ServerFlags → Result (ServerError E) (Server K T)
  unfolding or_fatal address
  start env flags = do
    given ← or_fatal refused_flag (set_all flags.resource_mapping [])
    let mappings = with_defaults flags.device_class flags.resource_name given
    rest ←
        or_fatal build_rest_config_failed
          (build_rest_config env.from_flags env.in_cluster flags.kubeconfig)
    client ← or_fatal create_kube_client (env.new_for_config rest)
    cert ← or_fatal load_tls_certs (env.load_key_pair flags.tls_cert flags.tls_key)
    ok (record {
      addr = address flags.port;
      routes = (codes "/mutate", mutate_handler) ∷ (codes "/healthz", healthz) ∷ [];
      certificates = cert ∷ [];
      mappings = mappings;
      metrics_addr = address flags.metrics_port;
      metrics_routes = (codes "/metrics", metrics) ∷ [];
      client = client;
      reconcile_interval = flags.reconcile_interval;
      reconcile_grace = flags.reconcile_grace;
    })
