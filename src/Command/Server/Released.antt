-- ===== src/Command/Server/Released.antt =====
-- What the webhook that cmd/webhook/main.go starts does for the resources of its flags.
use composite_dra_driver.Prelude.{
  ℕ, ◌≡◌, ◌≢◌, refl, sym, ap, ◌∙◌, Bool, true, false, List, [], ◌∷◌, ◌++◌, none, some, ℤ, lt_one,
  GoString, GoMap, lookup, insert, lookup-insert, lookup-Elem, str_eq, str_eq_refl, get_elem?, All,
  All-at, Elem, Bool-cases, inl, inr,
}
use composite_dra_driver.Prelude.Result.{ok, ok_parts}
use composite_dra_driver.Prelude.Run.{returns}
use composite_dra_driver.Webhook.{Container, Pod, PatchOp}
use composite_dra_driver.Webhook.Requests.{find_resource_requests}
use composite_dra_driver.Webhook.Requests.Complete.{match_of, find_resource_requests-Elem}
use composite_dra_driver.Webhook.Mutator.{ClaimTemplate, CreateResult, mutate}
use composite_dra_driver.Webhook.Mutator.Applied.{apply_all-mutate}
use composite_dra_driver.Webhook.JsonPatch.{apply_all}
use composite_dra_driver.Webhook.JsonPatch.Applied.{IsReleased}
use composite_dra_driver.Command.{build_rest_config, or_fatal, or_fatal-ok}
use composite_dra_driver.Command.Flags.{set, set_all, split_n, with_defaults}
use composite_dra_driver.Command.Flags.Mappings.{set_iff, split_n-entry}
use composite_dra_driver.Command.Server.{
  ServerFlags, ServerEnvironment, Server, refused_flag, build_rest_config_failed,
  create_kube_client, load_tls_certs, start,
}

-- the name has a class
abbrev IsMapped : GoString → GoMap GoString → Type 0
IsMapped k f = (v : GoString) × (lookup k f ≡ some v)

insert-IsMapped : (k j v : GoString) (f : GoMap GoString) → IsMapped k f → IsMapped k (insert j v f)
insert-IsMapped k j v f (w, h) = elim (Bool-cases (str_eq j k)) [
  | inl e ↦ (v, lookup-insert j k v f ∙ rw e refl)
  | inr e ↦ (w, lookup-insert j k v f ∙ rw e h)
]

insert-IsMapped_self : (k v : GoString) (f : GoMap GoString) → IsMapped k (insert k v f)
insert-IsMapped_self k v f = (v, lookup-insert k k v f ∙ rw (str_eq_refl k) refl)

set_all-IsMapped :
    (k : GoString) (vals : List GoString) (f f' : GoMap GoString)
    → set_all vals f ≡ ok f'
    → IsMapped k f
    → IsMapped k f'
unfolding set_all
set_all-IsMapped k [] f f' h m = (let e : f ≡ f' = cc in rw e at m)
set_all-IsMapped k (val ∷ vals) f f' h m =
    let (g, now, later) = ok_parts (set val f) (λ g. set_all vals g) h in
    let (j, v, named, joined, e) = (set_iff val f g).0 now in
    set_all-IsMapped k vals g f' later (rw e (insert-IsMapped k j v f m))

-- a use of the flag maps its name, whatever uses follow
set_all-given :
    (k v : GoString) (vals : List GoString) (f f' : GoMap GoString)
    → All (λ c. c ≢ b'=') k
    → Elem (k ++ (b'=' ∷ v)) vals
    → set_all vals f ≡ ok f'
    → IsMapped k f'
unfolding set_all
set_all-given k v [] f f' n h e = elim h [ ]
set_all-given k v (val ∷ vals) f f' n (inl same) h =
    let (g, now, later) = ok_parts (set val f) (λ g. set_all vals g) h in
    let (j, w, named, joined, e) = (set_iff val f g).0 now in
    let parts : k ∷ v ∷ [] ≡ j ∷ w ∷ [] =
      sym (split_n-entry k v n) ∙ ap split_n (same ∙ joined) ∙ split_n-entry j w named.no_equals in
    let name : j ≡ k = cc in
    set_all-IsMapped k vals g f' later (rw (e, name) (insert-IsMapped_self k w f))
set_all-given k v (val ∷ vals) f f' n (inr more) h =
    let (g, now, later) = ok_parts (set val f) (λ g. set_all vals g) h in
    set_all-given k v vals g f' n more later

with_defaults-IsMapped :
    (k device_class resource_name : GoString) (f : GoMap GoString)
    → IsMapped k f
    → IsMapped k (with_defaults device_class resource_name f)
unfolding with_defaults lookup
with_defaults-IsMapped k device_class resource_name [] (v, h) = cc
with_defaults-IsMapped k device_class resource_name (m ∷ f) h = h

module _ {E C K T : Type 0} (env : ServerEnvironment E C K T) (flags : ServerFlags) where
  start-mappings :
      (w : Server K T)
      → start env flags ≡ ok w
      → (given : GoMap GoString) × (set_all flags.resource_mapping [] ≡ ok given)
        × (w.mappings ≡ with_defaults flags.device_class flags.resource_name given)
  unfolding start
  start-mappings w h =
      let flag = set_all flags.resource_mapping [] in
      let config = build_rest_config env.from_flags env.in_cluster flags.kubeconfig in
      let (given, e1, h1) = ok_parts (or_fatal refused_flag flag) _ h in
      let (rest, e2, h2) = ok_parts (or_fatal build_rest_config_failed config) _ h1 in
      let (client, e3, h3) =
        ok_parts (or_fatal create_kube_client (env.new_for_config rest)) _ h2 in
      let (cert, e4, h4) =
        ok_parts (or_fatal load_tls_certs (env.load_key_pair flags.tls_cert flags.tls_key)) _ h3 in
      (given, or_fatal-ok refused_flag flag given e1, cc)

  -- A webhook that starts with `--resource-mapping k=v`, the name without '=', takes the requests of
  -- `k` out of the pods that it patches: if a container requests `k`, at least one and in an amount
  -- that is an int64, its patch leads to a pod whose container of this index has neither a request
  -- nor a limit of `k`, in whatever order the mappings are visited.
  pub start_releases {ℓ} :
      {State : Type ℓ} {Q : Type 0} (w : Server K T) (k v : GoString) (max_len : ℕ)
      (create : ClaimTemplate → State → CreateResult × State) (as_int64 : Q → ℤ × Bool)
      (visit : ℕ → GoMap GoString → GoMap GoString) (pod : Pod Q) (namespace : GoString) (i : ℕ)
      (c : Container Q) (q : Q) (os : List PatchOp) (s s' : State)
      → start env flags ≡ ok w
      → All (λ c. c ≢ b'=') k
      → Elem (k ++ (b'=' ∷ v)) flags.resource_mapping
      → ((j : ℕ) (m : GoMap GoString) (x : GoString × GoString) → Elem x m → Elem x (visit j m))
      → get_elem? pod.containers i ≡ some c
      → lookup k c.requests ≡ some q
      → (as_int64 q).1 ≡ true
      → lt_one (as_int64 q).0 ≡ false
      → mutate max_len create as_int64 visit w.mappings pod namespace s ≡ returns (ok (some os), s')
      → (pod' : Pod Q) × (apply_all os pod ≡ some pod')
        × ((d : Container Q) × (get_elem? pod'.containers i ≡ some d)
            × (lookup k d.requests ≡ none)
            × (lookup k d.limits ≡ none))
  start_releases w k v max_len create as_int64 visit pod namespace i c q os s s' h n given all at_ l
        fits positive e =
      let (flagged, set_eq, served) = start-mappings w h in
      let (class, found) =
        with_defaults-IsMapped k flags.device_class flags.resource_name flagged
          (set_all-given k v flags.resource_mapping [] flagged n given set_eq) in
      let mapped : Elem (k, class) w.mappings = rw served (lookup-Elem k _ class found) in
      let (pod', applied, released, done_) =
        apply_all-mutate max_len create as_int64 visit w.mappings pod namespace os s s' s' e in
      let matched =
        find_resource_requests-Elem as_int64 k class q fits positive visit w.mappings pod i c at_ l
          (all i w.mappings (k, class) mapped) in
      (
        pod',
        applied,
        All-at (IsReleased pod') (find_resource_requests as_int64 visit w.mappings pod) released
            (match_of as_int64 k class q fits positive i) matched,
      )
