-- ===== src/Tests/Client.antt =====
-- The gRPC client at concrete inputs: a connection is the path of its socket.
use mathlib.Core.List.{Perm}
use mathlib.Core.List.Perm
use composite_dra_driver.Prelude.{
  ℕ, ◌≡◌, refl, ◌⊎◌, List, [], ◌∷◌, ◌++◌, none, GoString, codes, GoMap, lookup, str_eq, clean,
  split_slash, join, join_path, keep, is_rooted,
}
use composite_dra_driver.Prelude.Result.{Result, ok, err}
use composite_dra_driver.Plugin.Client.{
  GrpcClient, ClaimRequest, PrepareResponse, dial_failed, socket_path, claim_request,
  prepare_response, unprepare_response, prepare, unprepare, close,
}
use composite_dra_driver.Plugin.Client.Served
use composite_dra_driver.Plugin.Client.Closed
use composite_dra_driver.Tests.Shadows.{info}

abbrev dial : GoString → GoString → Result ℕ GoString
dial target path = ok path

abbrev serve : GoString → List ClaimRequest → Result ℕ (GoMap PrepareResponse)
serve path req = ok ((codes "v", record { devices = (path ∷ []) ∷ []; error = [] }) ∷ [])

abbrev serve_unprepare : GoString → List ClaimRequest → Result ℕ (GoMap GoString)
serve_unprepare path req = ok []

abbrev At : GoString → GoString → Type 0
At path conn = conn ≡ path

-- one claim prepared
abbrev used : (c : GrpcClient GoString) × Served.Reach ℕ At (codes "/d") c
used = (
  _,
  Served.next Served.start (Served.prepares dial serve (codes "g.io") info (λ path conn e. cc)),
)

Reach-prepare_example :
    (let c = used.0 in
      let path = socket_path c.plugin_dir (codes "n.io") in
      let result = (prepare dial serve (codes "n.io") info c).0 in
      let result' = (unprepare dial serve_unprepare (codes "n.io") info c).0 in
      ((result ≡ prepare_response (codes "n.io") (codes "v") (serve path (claim_request info)))
        × (result'
            ≡ unprepare_response
                (codes "n.io")
                (codes "v")
                (serve_unprepare path (claim_request info))))
      ⊎ ((e : ℕ) × (lookup (codes "n.io") c.conns ≡ none)
          × (dial (codes "unix://" ++ path) path ≡ err e)
          × (result ≡ err (dial_failed (codes "n.io") path e))
          × (result' ≡ err (dial_failed (codes "n.io") path e))))
Reach-prepare_example =
    Served.Reach-prepare ℕ At dial serve serve_unprepare serve serve_unprepare (codes "n.io") info
      used.1 (λ path conn e. cc) (λ path conn e req. (rw e refl, refl))

abbrev logged : (l : Closed.Log GoString) × Closed.Reach ℕ (codes "/d") l
logged = (
  _,
  Closed.next (Closed.next Closed.start (Closed.prepares dial serve (codes "g.io") info))
      (Closed.prepares dial serve (codes "n.io") info),
)

Reach-close_example :
    (let (closed, client) = close (λ m. m) logged.0.client in
      (client.conns ≡ []) × Perm (logged.0.closed ++ closed) logged.0.opened)
Reach-close_example = Closed.Reach-close ℕ logged.1 (λ m. m) (Perm.refl logged.0.client.conns)

-- `Join` cleans what it joins.
socket_path_test : socket_path (codes "/a//b/../c/") (codes "g.io") ≡ codes "/a/c/g.io/dra.sock"
unfolding socket_path join_path codes str_eq split_slash clean join keep is_rooted
socket_path_test = refl
