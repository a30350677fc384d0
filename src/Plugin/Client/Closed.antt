-- ===== src/Plugin/Client/Closed.antt =====
-- Every connection is closed, and only once.
use mathlib.Core.List.{Perm, map-append}
use mathlib.Core.List.Perm
use composite_dra_driver.Prelude.{
  ◌≡◌, refl, sym, List, [], ◌∷◌, ◌++◌, map, append_assoc, append-nil, Option, none, some, GoString,
  codes, GoMap, lookup, insert, str_eq, Bool-cases, Option-cases, inl, inr, ap,
}
use composite_dra_driver.Prelude.Result.{Result, ok, err, Result-cases}
use composite_dra_driver.Plugin.{ShadowClaimInfo}
use composite_dra_driver.Plugin.Client.{
  GrpcClient, new_grpc_client, ClaimRequest, PrepareResponse, socket_path, connected, cached,
  get_conn, get_client, prepare, unprepare, close,
}

-- A client, with the connections that dialling has given and those that `Close` has closed.
pub record Log (C : Type 0) : Type 0 where
  pub client : GrpcClient C
  pub opened : List C
  pub closed : List C

insert_new {ℓ} :
    {V : Type ℓ} (k : GoString) (v : V) (m : GoMap V)
    → lookup k m ≡ none
    → insert k v m ≡ m ++ (k, v) ∷ []
unfolding lookup insert
insert_new k v [] h = refl
insert_new k v ((j, w) ∷ m) h = elim (Bool-cases (str_eq j k)) [
  | inl e ↦ absurd (let q : some w ≡ none = rw e at h in cc)
  | inr e ↦ rw e (ap (◌∷◌ (j, w)) (insert_new k v m (rw e at h)))
]

module _ (E : Type 0) {C : Type 0} where
  conns_of : GoMap C → List C
  conns_of = map (λ (x : GoString × C). x.1)

  -- the connection that a request dials, if it dials
  dialled_of : Option C → Result E C → List C
  dialled_of (some conn) answer = []
  dialled_of none (ok conn) = conn ∷ []
  dialled_of none (err e) = []

  pub dialled : (GoString → GoString → Result E C) → GoString → GrpcClient C → List C
  unfolding dialled_of
  dialled dial driver_name c =
      let path = socket_path c.plugin_dir driver_name in
      dialled_of (lookup driver_name c.conns) (dial (codes "unix://" ++ path) path)

  pub data Step (l : Log C) : Log C → Type 0 where
    prepares :
        (dial : GoString → GoString → Result E C)
        (call : C → List ClaimRequest → Result E (GoMap PrepareResponse)) (driver_name : GoString)
        (claim : ShadowClaimInfo)
        → Step l (record l {
          client = (prepare dial call driver_name claim l.client).1;
          opened = l.opened ++ dialled dial driver_name l.client;
        })
    unprepares :
        (dial : GoString → GoString → Result E C)
        (call : C → List ClaimRequest → Result E (GoMap GoString)) (driver_name : GoString)
        (claim : ShadowClaimInfo)
        → Step l (record l {
          client = (unprepare dial call driver_name claim l.client).1;
          opened = l.opened ++ dialled dial driver_name l.client;
        })
    closes :
        (visit : GoMap C → GoMap C)
        → Perm (visit l.client.conns) l.client.conns
        → Step l (record l {
          client = (close visit l.client).1;
          closed = l.closed ++ (close visit l.client).0;
        })

  pub data Reach (dir : GoString) : Log C → Type 0 where
    start : Reach dir (record { client = new_grpc_client dir; opened = []; closed = [] })
    next : {l m : Log C} → Reach dir l → Step l m → Reach dir m

  conns_of-get_client :
      (dial : GoString → GoString → Result E C) (driver_name : GoString) (c : GrpcClient C)
      → conns_of (get_client dial driver_name c).1.conns
        ≡ conns_of c.conns ++ dialled dial driver_name c
  unfolding get_client get_conn cached connected dialled dialled_of conns_of
  conns_of-get_client dial driver_name c = elim (Option-cases (lookup driver_name c.conns)) [
    | inr (conn, e) ↦ rw e (sym (append-nil (conns_of c.conns)))
    | inl e ↦
        let path = socket_path c.plugin_dir driver_name in
        elim (Result-cases (dial (codes "unix://" ++ path) path)) [
          | inl (x, f) ↦ rw (e, f) (sym (append-nil (conns_of c.conns)))
          | inr (conn, f) ↦
              rw (e, f)
                (rw (insert_new driver_name conn c.conns e)
                  (map-append _ c.conns ((driver_name, conn) ∷ [])))
        ]
  ]

  IsAccounted : Log C → Type 0
  IsAccounted l = Perm (l.closed ++ conns_of l.client.conns) l.opened

  request-IsAccounted :
      (dial : GoString → GoString → Result E C) (driver_name : GoString) (l : Log C)
      → IsAccounted l
      → Perm
          (l.closed ++ conns_of (get_client dial driver_name l.client).1.conns)
          (l.opened ++ dialled dial driver_name l.client)
  unfolding IsAccounted
  request-IsAccounted dial driver_name l h =
      rw
        (
          conns_of-get_client dial driver_name l.client,
          ← append_assoc l.closed (conns_of l.client.conns) (dialled dial driver_name l.client),
        )
        (Perm.append_right (dialled dial driver_name l.client) h)

  closed-IsAccounted :
      (visit : GoMap C → GoMap C) (l : Log C)
      → Perm (visit l.client.conns) l.client.conns
      → IsAccounted l
      → Perm (l.closed ++ conns_of (visit l.client.conns)) l.opened
  unfolding IsAccounted conns_of
  closed-IsAccounted visit l p h = Perm.trans (Perm.append_left l.closed (Perm.map _ p)) h

  Step-IsAccounted : {l m : Log C} → Step l m → IsAccounted l → IsAccounted m
  unfolding IsAccounted prepare unprepare close conns_of
  Step-IsAccounted {l} (prepares dial call driver_name claim) h =
      request-IsAccounted dial driver_name l h
  Step-IsAccounted {l} (unprepares dial call driver_name claim) h =
      request-IsAccounted dial driver_name l h
  Step-IsAccounted {l} (closes visit p) h =
      rw (append-nil (l.closed ++ conns_of (visit l.client.conns))) (closed-IsAccounted visit l p h)

  Reach-IsAccounted : {dir : GoString} {l : Log C} → Reach dir l → IsAccounted l
  unfolding IsAccounted new_grpc_client conns_of
  Reach-IsAccounted start = Perm.refl []
  Reach-IsAccounted (next r st) = Step-IsAccounted st (Reach-IsAccounted r)

  -- Whatever requests and closings came before, and in whatever order `Close` visits the map: after
  -- `Close` no connection is kept, and the connections that were closed so far are, up to order,
  -- those that dialling has given, each closed once.
  pub Reach-close :
      {dir : GoString} {l : Log C}
      → Reach dir l
      → (visit : GoMap C → GoMap C) → Perm (visit l.client.conns) l.client.conns
      → (let (closed, client) = close visit l.client in
          (client.conns ≡ []) × Perm (l.closed ++ closed) l.opened)
  unfolding close conns_of
  Reach-close {l} r visit p = (refl, closed-IsAccounted visit l p (Reach-IsAccounted r))
