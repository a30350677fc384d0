-- ===== src/Tests/Patching.antt =====
-- The webhook's patch, applied to a concrete pod.
use composite_dra_driver.Prelude.{
  inl, arith, get_elem?, ℕ, ◌≡◌, refl, List, [], ◌∷◌, Option, none, some, ℤ, pos, codes, All,
  lookup, lookup_or, insert, str_eq, has, truncate, decimal, add_int64, int64, split_slash, delete,
  str_lt,
}
use composite_dra_driver.Prelude.Run.{Run, returns, panics}
use composite_dra_driver.Prelude.Result.{Result, ok, err}
use composite_dra_driver.Webhook.{Container, Pod, PatchOp}
use composite_dra_driver.Webhook.Escape.{json_patch_escape, unescape}
use composite_dra_driver.Webhook.ClaimBuilder.{build_claim_spec, requests_from, pair_name}
use composite_dra_driver.Webhook.Requests.{
  group_matches, find_resource_requests, sort_strings, match_containers,
}
use composite_dra_driver.Webhook.Patches.{
  build_patches, remove_ops, claim_ops, container_refs, container_path, annotation_patch,
  append_ops, claim_name_of, container_ops, limit_ops, pod_claim_patch, quantity_count, refs_from,
  refs_ops, remove_op, request_count,
}
use composite_dra_driver.Webhook.Mutator.{
  MutateError, mutate, create_claims, pod_prefix, composition_template_name,
}
use composite_dra_driver.Webhook.Mutator.Applied.{apply_all-mutate}
use composite_dra_driver.Webhook.JsonPatch.{
  apply_all, apply_op, add_at, locate, tokens, remove_at, in_container, index_in, update_at,
  remove_request, remove_key, remove_limit, add_ref,
}
use composite_dra_driver.Webhook.JsonPatch.Applied.{IsReleased}
use composite_dra_driver.Command.{build_rest_config, or_fatal}
use composite_dra_driver.Command.Flags.{set_all, set, split_n, with_defaults}
use composite_dra_driver.Command.Server.{
  ServerFlags, ServerEnvironment, Server, mutate_handler, healthz, metrics, start,
}
use composite_dra_driver.Command.Server.Released.{start_releases}
use composite_dra_driver.Tests.Webhook.{max_len, resource, as_int64, create, identity, mappings}

-- the first container has a limit and other resources, the second one a claim
abbrev pod : Pod ℤ
pod = record {
  name = codes "p";
  generate_name = [];
  namespace = codes "ns";
  annotations = none;
  containers =
      record {
        requests = (codes "cpu", pos 4) ∷ (resource, pos 1) ∷ [];
        limits = (resource, pos 1) ∷ [];
        claims = none;
      }
      ∷ record {
        requests = (resource, pos 2) ∷ [];
        limits = [];
        claims = some (record { name = codes "other"; request = [] } ∷ []);
      }
      ∷ [];
  resource_claims = none;
}

abbrev ops_of : Run (Result MutateError (Option (List PatchOp)) × ℕ) → List PatchOp
ops_of (returns (ok (some ops), s)) = ops
ops_of (returns (ok none, s)) = []
ops_of (returns (err e, s)) = []
ops_of panics = []

abbrev answer : Run (Result MutateError (Option (List PatchOp)) × ℕ)
answer = mutate max_len create as_int64 identity mappings pod (codes "ns") 0

answers : answer ≡ returns (ok (some (ops_of answer)), 1)
unfolding mutate create_claims pod_prefix group_matches find_resource_requests build_claim_spec
    requests_from lookup insert str_eq codes truncate decimal add_int64 int64 sort_strings
    composition_template_name build_patches lookup_or has
answers = refl

-- the annotation, three removals, the pod's claim and the claims of the containers
patched :
    apply_all (ops_of answer) pod
    ≡ some (record pod {
      annotations = some ((codes "composite.dra/mutated", codes "true") ∷ []);
      containers =
          record {
            requests = (codes "cpu", pos 4) ∷ [];
            limits = [];
            claims = some (record { name = codes "composite-class"; request = pair_name 0 } ∷ []);
          }
          ∷ record {
            requests = [];
            limits = [];
            claims = some (
                record { name = codes "other"; request = [] }
                ∷ record { name = codes "composite-class"; request = pair_name 1 }
                ∷ record { name = codes "composite-class"; request = pair_name 2 }
                ∷ []);
          }
          ∷ [];
      resource_claims = some (
          record {
            name = codes "composite-class";
            resource_claim_template_name = some (codes "p-class");
          }
          ∷ []);
    })
unfolding mutate create_claims pod_prefix group_matches find_resource_requests build_claim_spec
    requests_from lookup insert str_eq codes truncate decimal add_int64 int64 sort_strings
    composition_template_name build_patches lookup_or has apply_all delete apply_op add_at locate
    tokens split_slash unescape remove_at container_path json_patch_escape in_container index_in
    update_at remove_request remove_key remove_limit add_ref str_lt pair_name annotation_patch
    append_ops claim_name_of claim_ops container_ops container_refs limit_ops pod_claim_patch
    quantity_count refs_from refs_ops remove_op remove_ops request_count match_containers
patched = refl

apply_all-mutate_example :
    (pod' : Pod ℤ) × (apply_all (ops_of answer) pod ≡ some pod')
    × All (IsReleased pod') (find_resource_requests as_int64 identity mappings pod)
    × (mutate max_len create as_int64 identity mappings pod' (codes "ns") 7 ≡ returns (ok none, 7))
apply_all-mutate_example =
    apply_all-mutate max_len create as_int64 identity mappings pod (codes "ns") (ops_of answer) 0 1
      7 answers

abbrev flags : ServerFlags
flags = record {
  port = pos 8443;
  metrics_port = pos 8080;
  tls_cert = codes "tls.crt";
  tls_key = codes "tls.key";
  kubeconfig = [];
  device_class = [];
  resource_name = [];
  resource_mapping = codes "c/pair=class" ∷ [];
  reconcile_interval = pos 300;
  reconcile_grace = pos 120;
}

-- a cluster whose configuration, client and certificate are numbers
abbrev environment : ServerEnvironment ℕ ℕ ℕ ℕ
environment = record {
  from_flags = λ url path. err 0;
  in_cluster = ok 1;
  new_for_config = λ config. ok 2;
  load_key_pair = λ cert key. ok 3;
}

abbrev server : Server ℕ ℕ
server = record {
  addr = codes ":8443";
  routes = (codes "/mutate", mutate_handler) ∷ (codes "/healthz", healthz) ∷ [];
  certificates = 3 ∷ [];
  mappings = mappings;
  metrics_addr = codes ":8080";
  metrics_routes = (codes "/metrics", metrics) ∷ [];
  client = 2;
  reconcile_interval = pos 300;
  reconcile_grace = pos 120;
}

starts : start environment flags ≡ ok server
unfolding start set_all set split_n with_defaults build_rest_config or_fatal insert codes decimal
starts = refl

start_releases_example :
    (pod' : Pod ℤ) × (apply_all (ops_of answer) pod ≡ some pod')
    × ((d : Container ℤ) × (get_elem? pod'.containers 1 ≡ some d)
        × (lookup resource d.requests ≡ none)
        × (lookup resource d.limits ≡ none))
unfolding codes lookup str_eq
start_releases_example =
    start_releases environment flags server resource (codes "class") max_len create as_int64
      identity pod (codes "ns") 1
      (record {
        requests = (resource, pos 2) ∷ [];
        limits = [];
        claims = some (record { name = codes "other"; request = [] } ∷ []);
      })
      (pos 2) (ops_of answer) 0 1 starts (ground arith) (inl refl) (λ j m x h. h) refl refl refl
      refl answers
