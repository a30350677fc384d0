-- ===== src/Plugin/Client.antt =====
-- pkg/plugin/grpc_client.go: the connections to the drivers' sockets and the calls over them. A
-- method holds the mutex where it reads or changes the map. Parameters: `dial` is `grpc.NewClient`
-- with its dialer for a target and a socket, and `call` a remote call over a connection.
pub mod Sockets
pub mod Served
pub mod Closed
use composite_dra_driver.Prelude.{
  List, [], ◌∷◌, ◌++◌, map, Option, none, some, GoString, codes, is_empty, GoMap, lookup, insert,
  join_path, if◌then◌else◌,
}
use composite_dra_driver.Prelude.Result.{Result, ok, err}
use composite_dra_driver.Plugin.{ShadowClaimInfo}

unfoldable pub default_plugin_dir : GoString
unfolding codes
default_plugin_dir = codes "/var/lib/kubelet/plugins"

-- `GRPCClient`, whose connections are of the type `C`
pub record GrpcClient {ℓ} (C : Type ℓ) : Type ℓ where
  pub plugin_dir : GoString
  pub conns : GoMap C

unfoldable pub new_grpc_client {ℓ} : {C : Type ℓ} → GoString → GrpcClient C
unfolding default_plugin_dir
new_grpc_client plugin_dir = record {
  plugin_dir = if is_empty plugin_dir then default_plugin_dir else plugin_dir;
  conns = [];
}

-- `drapbv1.Claim`
pub record ClaimRequest : Type 0 where
  pub namespace : GoString
  pub uid : GoString
  pub name : GoString

-- `drapbv1.NodePrepareResourceResponse`: the CDI device IDs of each device
pub record PrepareResponse : Type 0 where
  pub devices : List (List GoString)
  pub error : GoString

pub data GrpcError (E : Type 0) : Type 0 where
  dial_failed : GoString → GoString → E → GrpcError E
  call_failed : GoString → E → GrpcError E
  no_response : GoString → GoString → GrpcError E
  claim_refused : GoString → GoString → GoString → GrpcError E

unfoldable pub socket_path : GoString → GoString → GoString
socket_path plugin_dir driver_name = join_path (plugin_dir ∷ driver_name ∷ codes "dra.sock" ∷ [])

unfoldable pub claim_request : ShadowClaimInfo → List ClaimRequest
claim_request claim =
    record { namespace = claim.namespace; uid = claim.uid; name = claim.name } ∷ []

module _ {E : Type 0} where
  -- what follows the remote call of `Prepare`
  claim_response :
      GoString → GoString → Option PrepareResponse → Result (GrpcError E) PrepareResponse
  claim_response driver_name uid none = err (no_response driver_name uid)
  claim_response driver_name uid (some resp) =
      if is_empty resp.error then ok resp else err (claim_refused driver_name uid resp.error)

  unfoldable pub prepare_response :
      GoString → GoString → Result E (GoMap PrepareResponse) → Result (GrpcError E) PrepareResponse
  unfolding claim_response
  prepare_response driver_name uid (err e) = err (call_failed driver_name e)
  prepare_response driver_name uid (ok claims) = claim_response driver_name uid (lookup uid claims)

  -- what follows the remote call of `Unprepare`, whose response to a claim is an error's text
  unprepared : GoString → GoString → Option GoString → Result (GrpcError E) (Unit {0})
  unprepared driver_name uid none = ok tt
  unprepared driver_name uid (some message) =
      if is_empty message then ok tt else err (claim_refused driver_name uid message)

  unfoldable pub unprepare_response :
      GoString → GoString → Result E (GoMap GoString) → Result (GrpcError E) (Unit {0})
  unfolding unprepared
  unprepare_response driver_name uid (err e) = err (call_failed driver_name e)
  unprepare_response driver_name uid (ok claims) = unprepared driver_name uid (lookup uid claims)

module _ {E C : Type 0} (dial : GoString → GoString → Result E C) where
  -- the connection that was dialled is kept
  unfoldable pub connected :
      GoString → GoString → GrpcClient C → Result E C → Result (GrpcError E) C × GrpcClient C
  connected driver_name path client (err e) = (err (dial_failed driver_name path e), client)
  connected driver_name path client (ok conn) =
      (ok conn, record client { conns = insert driver_name conn client.conns })

  unfoldable pub cached : GoString → GrpcClient C → Option C → Result (GrpcError E) C × GrpcClient C
  unfolding connected
  cached driver_name client (some conn) = (ok conn, client)
  cached driver_name client none =
      let path = socket_path client.plugin_dir driver_name in
      connected driver_name path client (dial (codes "unix://" ++ path) path)

  unfoldable pub get_conn : GoString → GrpcClient C → Result (GrpcError E) C × GrpcClient C
  unfolding cached
  get_conn driver_name client = cached driver_name client (lookup driver_name client.conns)

  -- a client of the driver's service is its connection
  unfoldable pub get_client : GoString → GrpcClient C → Result (GrpcError E) C × GrpcClient C
  unfolding get_conn
  get_client driver_name client = get_conn driver_name client

  prepare_over :
      (C → List ClaimRequest → Result E (GoMap PrepareResponse))
      → GoString
      → ShadowClaimInfo
      → Result (GrpcError E) C
      → Result (GrpcError E) PrepareResponse
  unfolding prepare_response
  prepare_over call driver_name claim (err e) = err e
  prepare_over call driver_name claim (ok conn) =
      prepare_response driver_name claim.uid (call conn (claim_request claim))

  unfoldable pub prepare :
      (C → List ClaimRequest → Result E (GoMap PrepareResponse))
      → GoString
      → ShadowClaimInfo
      → GrpcClient C
      → Result (GrpcError E) PrepareResponse × GrpcClient C
  unfolding get_client prepare_over
  prepare call driver_name claim client =
      let (conn, client') = get_client driver_name client in
      (prepare_over call driver_name claim conn, client')

  unprepare_over :
      (C → List ClaimRequest → Result E (GoMap GoString))
      → GoString
      → ShadowClaimInfo
      → Result (GrpcError E) C
      → Result (GrpcError E) (Unit {0})
  unfolding unprepare_response
  unprepare_over call driver_name claim (err e) = err e
  unprepare_over call driver_name claim (ok conn) =
      unprepare_response driver_name claim.uid (call conn (claim_request claim))

  unfoldable pub unprepare :
      (C → List ClaimRequest → Result E (GoMap GoString))
      → GoString
      → ShadowClaimInfo
      → GrpcClient C
      → Result (GrpcError E) (Unit {0}) × GrpcClient C
  unfolding get_client unprepare_over
  unprepare call driver_name claim client =
      let (conn, client') = get_client driver_name client in
      (unprepare_over call driver_name claim conn, client')

-- the connections that are closed, in the order in which the map is visited, and the client
unfoldable pub close {ℓ} : {C : Type ℓ} → (GoMap C → GoMap C) → GrpcClient C → List C × GrpcClient C
close visit client =
    (map (λ (x : GoString × _). x.1) (visit client.conns), record client { conns = [] })
