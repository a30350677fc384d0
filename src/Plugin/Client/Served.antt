-- ===== src/Plugin/Client/Served.antt =====
-- Whatever the client has done before, a request goes to the socket of its driver.
use composite_dra_driver.Prelude.{
  ◌≡◌, refl, ◌⊎◌, inl, inr, ◌++◌, List, none, GoString, codes, GoMap, lookup, All, All-insert,
  All-lookup, Option-cases,
}
use composite_dra_driver.Prelude.Result.{Result, ok, err, Result-cases}
use composite_dra_driver.Plugin.{ShadowClaimInfo}
use composite_dra_driver.Plugin.Client.{
  GrpcClient, new_grpc_client, ClaimRequest, PrepareResponse, GrpcError, dial_failed, socket_path,
  claim_request, prepare_response, unprepare_response, connected, cached, get_conn, get_client,
  prepare, unprepare, close,
}

-- `At path conn`: the connection is one to the socket `path`. Every connection that is kept is one to
-- the socket of its driver.
abbrev pub IsConnected : {C : Type 0} → (GoString → C → Type 0) → GrpcClient C → Type 0
IsConnected {C} At c = All (λ (x : GoString × C). At (socket_path c.plugin_dir x.0) x.1) c.conns

module _ (E : Type 0) {C : Type 0} (At : GoString → C → Type 0) where
  -- dialling a target gives a connection to its socket
  abbrev pub IsDialer : (GoString → GoString → Result E C) → Type 0
  IsDialer dial =
      (path : GoString) (conn : C) → dial (codes "unix://" ++ path) path ≡ ok conn → At path conn

  -- one use of the client; what the network answers may change from one to the next
  pub data Step (c : GrpcClient C) : GrpcClient C → Type 0 where
    prepares :
        (dial : GoString → GoString → Result E C)
        (call : C → List ClaimRequest → Result E (GoMap PrepareResponse)) (driver_name : GoString)
        (claim : ShadowClaimInfo)
        → IsDialer dial
        → Step c (prepare dial call driver_name claim c).1
    unprepares :
        (dial : GoString → GoString → Result E C)
        (call : C → List ClaimRequest → Result E (GoMap GoString)) (driver_name : GoString)
        (claim : ShadowClaimInfo)
        → IsDialer dial
        → Step c (unprepare dial call driver_name claim c).1
    closes : (visit : GoMap C → GoMap C) → Step c (close visit c).1

  pub data Reach (dir : GoString) : GrpcClient C → Type 0 where
    start : Reach dir (new_grpc_client dir)
    next : {c d : GrpcClient C} → Reach dir c → Step c d → Reach dir d

  get_client-IsConnected :
      (dial : GoString → GoString → Result E C) (driver_name : GoString) (c : GrpcClient C)
      → IsDialer dial
      → IsConnected At c
      → IsConnected At (get_client dial driver_name c).1
  unfolding get_client get_conn cached connected
  get_client-IsConnected dial driver_name c d h = elim (Option-cases (lookup driver_name c.conns)) [
    | inr (conn, e) ↦ rw e h
    | inl e ↦
        let path = socket_path c.plugin_dir driver_name in
        elim (Result-cases (dial (codes "unix://" ++ path) path)) [
          | inl (x, f) ↦ rw (e, f) h
          | inr (conn, f) ↦ rw (e, f) (All-insert _ driver_name conn c.conns (d path conn f) h)
        ]
  ]

  Step-IsConnected : {c d : GrpcClient C} → Step c d → IsConnected At c → IsConnected At d
  unfolding prepare unprepare close
  Step-IsConnected {c} (prepares dial call driver_name claim d) h =
      get_client-IsConnected dial driver_name c d h
  Step-IsConnected {c} (unprepares dial call driver_name claim d) h =
      get_client-IsConnected dial driver_name c d h
  Step-IsConnected (closes visit) h = tt

  Reach-IsConnected : {dir : GoString} {c : GrpcClient C} → Reach dir c → IsConnected At c
  unfolding new_grpc_client
  Reach-IsConnected start = tt
  Reach-IsConnected (next r st) = Step-IsConnected st (Reach-IsConnected r)

  -- the connection of `driver_name`, or why there is none
  abbrev IsAnswer :
      (GoString → GoString → Result E C) → GoString → GrpcClient C → Result (GrpcError E) C → Type 0
  IsAnswer dial driver_name c r =
      let path = socket_path c.plugin_dir driver_name in
      ((conn : C) × (r ≡ ok conn) × At path conn)
      ⊎ ((e : E) × (lookup driver_name c.conns ≡ none)
          × (dial (codes "unix://" ++ path) path ≡ err e)
          × (r ≡ err (dial_failed driver_name path e)))

  get_client-IsAnswer :
      (dial : GoString → GoString → Result E C) (driver_name : GoString) (c : GrpcClient C)
      → IsDialer dial
      → IsConnected At c
      → IsAnswer dial driver_name c (get_client dial driver_name c).0
  unfolding get_client get_conn cached connected
  get_client-IsAnswer dial driver_name c d h = elim (Option-cases (lookup driver_name c.conns)) [
    | inr (conn, e) ↦ rw e (inl (conn, refl, All-lookup _ driver_name c.conns conn h e))
    | inl e ↦
        let path = socket_path c.plugin_dir driver_name in
        elim (Result-cases (dial (codes "unix://" ++ path) path)) [
          | inl (x, f) ↦ rw (e, f) (inr (x, refl, refl, refl))
          | inr (conn, f) ↦ rw (e, f) (inl (conn, refl, d path conn f))
        ]
  ]

  -- Whatever calls, answers and closings came before, `Prepare` and `Unprepare` return what the server
  -- at the socket of the driver itself answers, read as the code reads a response; only if no
  -- connection is kept and dialling fails do they return that error.
  pub Reach-prepare :
      {dir : GoString} {c : GrpcClient C} (dial : GoString → GoString → Result E C)
      (call : C → List ClaimRequest → Result E (GoMap PrepareResponse))
      (call' : C → List ClaimRequest → Result E (GoMap GoString))
      (serve : GoString → List ClaimRequest → Result E (GoMap PrepareResponse))
      (serve' : GoString → List ClaimRequest → Result E (GoMap GoString)) (driver_name : GoString)
      (claim : ShadowClaimInfo)
      → Reach dir c
      → IsDialer dial
      → ((path : GoString) (conn : C)
          → At path conn
          → (req : List ClaimRequest)
          → (call conn req ≡ serve path req) × (call' conn req ≡ serve' path req))
      → (let path = socket_path c.plugin_dir driver_name in
          let req = claim_request claim in
          let result = (prepare dial call driver_name claim c).0 in
          let result' = (unprepare dial call' driver_name claim c).0 in
          ((result ≡ prepare_response driver_name claim.uid (serve path req))
            × (result' ≡ unprepare_response driver_name claim.uid (serve' path req)))
          ⊎ ((e : E) × (lookup driver_name c.conns ≡ none)
              × (dial (codes "unix://" ++ path) path ≡ err e)
              × (result ≡ err (dial_failed driver_name path e))
              × (result' ≡ err (dial_failed driver_name path e))))
  unfolding prepare unprepare
  Reach-prepare {c} dial call call' serve serve' driver_name claim r d answers =
      elim (get_client-IsAnswer dial driver_name c d (Reach-IsConnected r)) [
        | inl (conn, e, at_) ↦
            let (p, q) =
              answers (socket_path c.plugin_dir driver_name) conn at_ (claim_request claim) in
            inl (rw (e, prepare) (rw p refl), rw (e, unprepare) (rw q refl))
        | inr (x, e, f, g) ↦ inr (x, e, f, rw (g, prepare) refl, rw (g, unprepare) refl)
      ]
