-- ===== src/Lib.antt =====
-- The composite DRA driver (Go), which offers groups of devices of other Kubernetes DRA drivers as
-- composite devices.
--
-- The parts and how they interact. The configuration (pkg/config) names sources, which are the
-- underlying drivers, and compositions of their devices. On a change of the ResourceSlices of the
-- node the synthesizer (pkg/synthesizer) reads the devices of each source (watcher.go), filters and
-- combines them to composite devices (cel.go, pairer.go), stores what each one stands for in the
-- device store (pkg/store/device_store.go) and publishes them in slices (publisher.go). When a pod
-- gets a composite device, the plugin (pkg/plugin) looks the device up in the store, creates a
-- shadow claim for each member (pkg/shadow/claims.go) with parameters for its driver
-- (pkg/shadow/params.go), calls the drivers and persists its records (pkg/store/state.go). The
-- webhook (pkg/webhook) turns resource requests of a pod into claim templates and a JSON patch. Two
-- reconcilers delete what is left over. The commands (cmd) put the parts together.
--
-- The files. A Go function is the definition of the same name in snake case; a loop is a function by
-- recursion on the list that it walks.
-- - Prelude, and its children Tests, Lists, Text, Maps, Path, Int, Result, Run and Ticker: Go's texts,
--   maps, paths, integers, errors and panics, and the loops that wait for a ticker.
-- - Resource: k8s.io/api's device attributes.
-- - Config, Config/Loader and Config/Validation: types.go, loader.go and validation.go. Below
--   Validation, Spec says what a valid configuration is, and the other files relate the checks to it.
-- - Store, Store/Devices and Store/State: device_store.go and state.go.
-- - Synthesizer: pairer.go in Devices, Combinations, Groupings, Build, Matching, Explicit and Pairer;
--   publisher.go in Publisher, watcher.go in Watcher, cel.go in Cel, synthesizer.go in Recompute and
--   Start. Watcher/Debounce is the timer as a state machine.
-- - Plugin: plugin.go in Prepare, Unprepare and State, and in Lifecycle as a state machine with
--   restarts; grpc_client.go in Client, reconciler.go in Orphans.
-- - Shadow: claims.go in Claims, params.go in Params.
-- - Webhook: mutator.go in Mutator, Requests, Patches and Escape, claim_builder.go in ClaimBuilder,
--   handler.go in Handler, reconciler.go in Reconciler. JsonPatch is RFC 6902, which says what the
--   webhook's patches do to a pod.
-- - Command: cmd/driver/main.go in Driver, cmd/webhook/main.go in Flags and Server.
-- - Tests: inputs, runs and each theorem at a concrete input.
--
-- How the code is modelled.
-- - A text is the list of its bytes. A map is an association list in the order in which `range`
--   visits it; where code builds a map and then ranges over it, the order is a function, `visit`
--   or `range_combo`, a parameter. `strings.ToLower` is that of ASCII.
-- - A function that can fail returns a Result, whose errors are constructors, one for each message.
--   A nil dereference, an index out of range and a length that `make` does not take are the value
--   `panics` of Run; the largest length that it takes is a parameter, `max_len`, as Go leaves it to
--   the platform. That memory runs out is left out.
-- - Counts are whole numbers; the sum of the webhook's counts wraps around at 64 bits.
-- - State is passed on explicitly: the store, the plugin, the cache of programs, the state of the
--   cluster. A method that holds a mutex throughout is one step. The workers of `prepareClaim` write
--   only their own work item, so the answers that they get are functions of the item.
-- - Code of other libraries is a parameter: YAML and JSON, compiling and evaluating CEL, the template
--   engine, SHA-256, the API server, bolt's transactions, a quantity's `AsInt64`, dialling a socket
--   and the calls over a connection. Where a theorem needs more of one, it says so among its
--   hypotheses.
-- - `sort.Slice` by name is insertion, which is stable; the theorems on its results hold of any order.
-- - The loops on fuel are `batches` of the publisher, whose fuel is the number of devices, where each
--   round takes at least one, and `decimal`, whose fuel exceeds the number and so its digits.
--
-- Not modelled: logs, metrics and events (pkg/metrics), informers, and the HTTP servers, signals
-- and TLS of the commands.
mod Prelude
mod Resource
pub mod Config
pub mod Store
pub mod Synthesizer
pub mod Webhook
pub mod Plugin
pub mod Command
pub mod Shadow
mod Tests
