-- ===== src/Command/Driver/Started.antt =====
-- What holds once the driver has started.
use composite_dra_driver.Prelude.{
  ◌≡◌, sym, ap, ◌∙◌, List, none, some, GoString, codes, is_empty, [], ◌∷◌, join_path, lookup,
}
use composite_dra_driver.Prelude.Result.{Result, ok, fail_if, ok_parts, ok_inj}
use composite_dra_driver.Prelude.Run.{returns}
use composite_dra_driver.Config.{CompositeConfig}
use composite_dra_driver.Config.Loader.{load_from_file}
use composite_dra_driver.Config.Validation.{validate}
use composite_dra_driver.Store.Devices.{DeviceStore, new_device_store}
use composite_dra_driver.Store.State.{Bucket, new_state_store, new_state_store-some}
use composite_dra_driver.Synthesizer.Devices.{CompositeDevice}
use composite_dra_driver.Synthesizer.Pairer.{RangeOrders}
use composite_dra_driver.Synthesizer.Watcher.{ResourceSlice}
use composite_dra_driver.Synthesizer.Start.{new, synthesize, synthesize-returns}
use composite_dra_driver.Plugin.{CompositePlugin}
use composite_dra_driver.Plugin.Prepare.{Resolve}
use composite_dra_driver.Plugin.Lifecycle.Persisted.{IsCodec, Reach-IsPersisted}
use composite_dra_driver.Plugin.Lifecycle.{Reach, new_composite_plugin}
use composite_dra_driver.Command.{build_rest_config, or_fatal, or_fatal-ok}
use composite_dra_driver.Command.Driver.{
  Flags, Environment, Driver, node_name_required, load_config, invalid_config, rest_config,
  kube_client, create_state_dir, open_state_store, create_socket_dir, start_kubelet_plugin,
  fault_or_fatal, params_resolver_of, start_parts, start,
}

module _ {E C K V : Type 0} (env : Environment E C K V) (flags : Flags) (Conn : Type 0)
    (d : Driver V Conn) where
  pub state_db : GoString
  state_db = join_path (flags.state_dir ∷ codes "state.db" ∷ [])

  -- what `start_parts` puts together
  parts-ok :
      (cfg : CompositeConfig) (client : K)
      → start_parts env flags Conn cfg client ≡ ok d
      → (bucket : Bucket) × (new_state_store state_db (env.open_db state_db) env.init_fault
          ≡ ok bucket)
        × (d.synthesizer
            ≡ new cfg env.cel_filter flags.node_name
                (env.node client flags.node_name)
                new_device_store)
        × (d.plugin
            ≡ new_composite_plugin env.marshal env.unmarshal env.list_fault cfg.driver.name
                new_device_store
                (some bucket))
  unfolding start_parts state_db
  parts-ok cfg client h =
      let opened = new_state_store state_db (env.open_db state_db) env.init_fault in
      let dir = join_path (flags.plugin_dir ∷ cfg.driver.name ∷ []) in
      let (made, e1, h1) =
        ok_parts (fault_or_fatal create_state_dir (env.mkdir_all flags.state_dir)) _ h in
      let (bucket, e2, h2) = ok_parts (or_fatal open_state_store opened) _ h1 in
      let (resolver, e3, h3) =
        ok_parts (params_resolver_of env flags client cfg.device_params) _ h2 in
      let (dir_made, e4, h4) =
        ok_parts (fault_or_fatal (create_socket_dir dir) (env.mkdir_all dir)) _ h3 in
      let (started, e5, h5) =
        ok_parts (fault_or_fatal start_kubelet_plugin env.start_plugin) _ h4 in
      (bucket, or_fatal-ok open_state_store opened bucket e2, cc, cc)

  start-parts :
      start env flags Conn ≡ ok d
      → (cfg : CompositeConfig) × (client : K) × (validate cfg ≡ ok tt)
        × (start_parts env flags Conn cfg client ≡ ok d)
  unfolding start
  start-parts h =
      let loaded = load_from_file env.unmarshal_config env.read_file flags.config_path in
      let config = build_rest_config env.from_flags env.in_cluster flags.kubeconfig in
      let (named, e1, h1) = ok_parts (fail_if (is_empty flags.node_name) node_name_required) _ h in
      let (cfg, e2, h2) = ok_parts (or_fatal load_config loaded) _ h1 in
      let (valid, e3, h3) = ok_parts (or_fatal invalid_config (validate cfg)) _ h2 in
      let (rest, e4, h4) = ok_parts (or_fatal rest_config config) _ h3 in
      let (client, e5, h5) = ok_parts (or_fatal kube_client (env.new_for_config rest)) _ h4 in
      (cfg, client, or_fatal-ok invalid_config (validate cfg) tt e3, h5)

  -- A driver that has started has a configuration without validation errors, and each recomputation
  -- of its synthesizer returns, whatever slices are listed and in whatever order groups are visited.
  pub start_works :
      start env flags Conn ≡ ok d
      → (validate d.synthesizer.cfg ≡ ok tt)
        × ((visit : RangeOrders) (slices : Result E (List ResourceSlice))
            → (r : DeviceStore × List CompositeDevice) × (synthesize visit slices d.synthesizer
                ≡ returns r))
  unfolding new
  start_works h =
      let (cfg, client, valid, h') = start-parts h in
      let (bucket, e, made, plugged) = parts-ok cfg client h' in
      rw made (
        valid,
        λ visit slices.
            synthesize-returns cfg env.cel_filter flags.node_name (env.node client flags.node_name)
              new_device_store visit slices valid,
      )

  -- A driver that starts with the state store that an earlier one left, in any state that it had
  -- reached without a failed transaction and with records of ASCII texts, whose JSON decodes to them,
  -- and reads it without errors, has the earlier one's records of every claim.
  pub start_records :
      (resolve : Resolve) {name : GoString} {p : CompositePlugin} (uid : GoString)
      → IsCodec env.marshal env.unmarshal
      → Reach env.marshal env.unmarshal resolve name p
      → env.open_db state_db ≡ ok p.state
      → env.init_fault ≡ none
      → env.list_fault ≡ none
      → start env flags Conn ≡ ok d
      → lookup uid d.plugin.shadow_claims ≡ lookup uid p.shadow_claims
  unfolding new_composite_plugin new_state_store
  start_records resolve {p} uid codec r opened init list h =
      let (cfg, client, valid, h') = start-parts h in
      let (bucket, e, made, plugged) = parts-ok cfg client h' in
      let persisted = Reach-IsPersisted env.marshal env.unmarshal resolve codec r in
      let same : bucket ≡ persisted.b =
        (let q : new_state_store state_db (ok (some persisted.b)) none ≡ ok bucket =
            rw (opened ∙ ap ok persisted.saved, init) at e in
          ok_inj (sym q ∙ new_state_store-some state_db persisted.b)) in
      rw (plugged, list, same) (sym (persisted.agree uid))
