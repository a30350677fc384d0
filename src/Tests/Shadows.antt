-- ===== src/Tests/Shadows.antt =====
-- Shadow claims, their parameters and the reconcilers at concrete inputs.
use composite_dra_driver.Prelude.{
  true, has_prefix, ℕ, ◌≡◌, ◌↔◌, refl, List, [], ◌∷◌, Option, none, some, pos, GoString, codes,
  lookup, lookup_or, str_eq, All, if◌then◌else◌, insert,
}
use composite_dra_driver.Prelude.Result.{Result, ok, err}
use composite_dra_driver.Store.{DeviceMember, DeviceMapping}
use composite_dra_driver.Store.Devices.{put, get, key}
use composite_dra_driver.Store.State.{StoredShadows, save_shadows}
use composite_dra_driver.Plugin.{
  ShadowClaimInfo, ShadowRecord, ResourceClaim, CompositePlugin, Call, unprepare_via_grpc,
  delete_claim, delete_for_composite,
}
use composite_dra_driver.Plugin.State.{stored, restore_from_state}
use composite_dra_driver.Plugin.State.Restored.{restore-persist}
use composite_dra_driver.Plugin.Unprepare.{NamespacedObject, unprepare_claim}
use composite_dra_driver.Plugin.Unprepare.Retry.{
  unprepare_claim-ok, IsUndone, unprepare_claim-retry,
}
use composite_dra_driver.Plugin.Prepare.{
  Created, made, Collected, records, shadows_of, allocated, prepare_claim, collect,
}
use composite_dra_driver.Plugin.Prepare.Assemble.{MemberWork}
use composite_dra_driver.Plugin.Prepare.Cleanup.{AllOrNothing, prepare_claim-AllOrNothing}
use composite_dra_driver.Shadow.Claims.{ShadowClaim}
use composite_dra_driver.Plugin.Orphans.Created.{Request, shadows_for}
use composite_dra_driver.Resource.{string_attribute}
use composite_dra_driver.Shadow.Params.Matching.{Accepts, matches_device-iff_Accepts}
use composite_dra_driver.Shadow.Params.{
  AttributeMatcher, matches_device, get_attr_string, matches_text, OverrideEntry, copy_into,
  apply_overrides, build_template_data,
}
use composite_dra_driver.Shadow.Params.Merged.{resolved, HasDistinct, build_template_data_lem}
use composite_dra_driver.Webhook.{PodResourceClaim}
use composite_dra_driver.Webhook.Reconciler.{TemplateItem, reconcile_templates}
use composite_dra_driver.Webhook.Reconciler.Safe.{IsExpired, reconcile_templates-AllExpired}

abbrev pub gpu : DeviceMember
gpu = record {
  source_name = codes "gpu";
  driver = codes "g.io";
  pool = codes "pool";
  device = codes "g0";
  device_class_name = codes "gpu";
  attributes = [];
}

abbrev pub claim : ResourceClaim
claim = record {
  namespace = codes "ns";
  name = codes "c";
  uid = codes "u";
  allocation = some (
      record {
        request = codes "pair-0";
        driver = codes "composite";
        pool = codes "p";
        device = codes "d";
      }
      ∷ []);
}

abbrev pub object : NamespacedObject
object = record { namespace = codes "ns"; name = codes "c"; uid = codes "u" }

abbrev pub info : ShadowClaimInfo
info = record { namespace = codes "ns"; name = codes "s"; uid = codes "v" }

abbrev pub shadow_record : ShadowRecord
shadow_record = record { driver_name = codes "g.io"; composition = codes "pair"; info = info }

abbrev pub mapping : DeviceMapping
mapping = record {
  composition_name = codes "pair";
  members = gpu ∷ [];
  rail_index = pos 0;
  numa_node = pos 0;
}

abbrev pub plugin : CompositePlugin
plugin = record {
  driver_name = codes "composite";
  device_store = put (codes "p") (codes "d") mapping (record { devices = [] });
  shadow_claims = (codes "u", shadow_record ∷ []) ∷ [];
  state = none;
}

-- a driver that refuses
abbrev pub answer : Call → Option ℕ
answer (unprepare_via_grpc driver i) = some 1
answer (delete_claim namespace name) = none
answer (delete_for_composite namespace uid) = none

unprepare_claim-retry_example :
    (unprepare_claim answer none object (unprepare_claim answer none object plugin).1).0
    ≡ (ok tt, delete_for_composite (codes "ns") (codes "u") ∷ [])
unprepare_claim-retry_example = unprepare_claim-retry answer answer none none object plugin

unprepare_claim-ok_example :
    (((unprepare_claim answer none object plugin).0.0 ≡ ok tt)
      ↔ All (IsUndone answer) (shadow_record ∷ []))
    × ((unprepare_claim answer none object plugin).0.1
        ≡ unprepare_via_grpc shadow_record.driver_name info
          ∷ delete_claim info.namespace info.name
          ∷ [])
unfolding lookup lookup_or str_eq codes
unprepare_claim-ok_example = unprepare_claim-ok answer none object plugin

-- a codec that knows one record
abbrev pub marshal : StoredShadows → Result ℕ GoString
marshal rec = ok (codes "json")

abbrev pub unmarshal : GoString → Result ℕ StoredShadows
unmarshal data_ = ok (stored claim (shadow_record ∷ []))

restore-persist_example :
    lookup (codes "u") (
      restore_from_state marshal unmarshal none
        (save_shadows marshal unmarshal none (stored claim (shadow_record ∷ [])) []).1
        [])
    ≡ (if str_eq (codes "u") (codes "u")
        then some (shadow_record ∷ [])
        else lookup (codes "u") (restore_from_state marshal unmarshal none [] []))
restore-persist_example =
    restore-persist marshal unmarshal [] claim (shadow_record ∷ []) (codes "json") (codes "u") refl
      refl tt tt

abbrev pub created : MemberWork → Created ℕ
created w = made info

abbrev pub fetched : MemberWork → Result ℕ ShadowClaimInfo
fetched w = err 0

abbrev prepared : MemberWork → ShadowRecord → Result ℕ (List (List GoString))
prepared w sr = err 2

abbrev pub collected : Collected
collected = record {
  composition = codes "pair";
  work =
      record {
        pair_idx = 0;
        member_idx = 0;
        member = gpu;
        alloc_result = record {
          request = codes "pair-0";
          driver = codes "composite";
          pool = codes "p";
          device = codes "d";
        };
        opaque_config = none;
      }
      ∷ [];
  pair_ordinal = 1;
}

prepare_claim-AllOrNothing_example :
    AllOrNothing marshal unmarshal none created fetched prepared none claim plugin collected.work
      (records (shadows_of created fetched (codes "pair") collected.work))
      (prepare_claim marshal unmarshal none created fetched prepared none claim plugin)
      (prepare_claim marshal unmarshal none created fetched prepared none claim plugin).result
unfolding allocated collect get put key lookup insert str_eq codes
prepare_claim-AllOrNothing_example =
    prepare_claim-AllOrNothing marshal unmarshal none created fetched prepared none claim plugin
      collected refl

abbrev request : Request
request = record { claim = claim; member = gpu; request_name = codes "pair-0" }

-- another composite claim, which is there
abbrev kept : Request
kept = record request {
  claim = record {
    namespace = codes "ns";
    name = codes "kept";
    uid = codes "v";
    allocation = none;
  };
}

abbrev get_claim : GoString → GoString → Result ℕ ResourceClaim
get_claim namespace name = if str_eq name (codes "kept") then ok kept.claim else err 404

-- the API server lists both shadow claims for the driver's label, and nothing else
abbrev list_claims : GoString → Result ℕ (List ShadowClaim)
list_claims selector =
    if str_eq selector (codes "app.kubernetes.io/managed-by=composite")
    then ok (shadows_for (λ s. s) (codes "composite") get_claim (request ∷ kept ∷ []))
    else ok []

abbrev override : OverrideEntry ℕ
override = record {
  node_selector = [];
  entries = record { matchers = []; values = some ((codes "MTU", 9000) ∷ []) } ∷ [];
}

build_template_data_lem_example :
    lookup (codes "MTU") (
      build_template_data
        (λ n. n)
        (λ s. 0)
        (apply_overrides [] [] [] (override ∷ []) (copy_into ((codes "MTU", 1500) ∷ []) []))
        0
        (codes "node")
        (codes "nic"))
    ≡ (if str_eq (codes "SourceName") (codes "MTU")
        then some 0
        else if str_eq (codes "NodeName") (codes "MTU")
        then some 0
        else if str_eq (codes "PairOrdinal") (codes "MTU")
        then some 0
        else resolved [] []
            (codes "MTU")
            (override ∷ [])
            (lookup (codes "MTU") ((codes "MTU", 1500) ∷ [])))
unfolding HasDistinct
build_template_data_lem_example =
    build_template_data_lem (λ n. n) (λ s. 0) [] [] [] ((codes "MTU", 1500) ∷ []) (override ∷ []) 0
      (codes "node") (codes "nic") (codes "MTU") (tt, tt) (((tt, tt), tt), tt)

abbrev template : TemplateItem
template = record { namespace = codes "ns"; name = codes "t"; creation_timestamp = pos 0 }

abbrev used : TemplateItem
used = record template { name = codes "used" }

-- one pod, which refers to the second template
abbrev live : GoString → Option (List (List PodResourceClaim))
live ns =
    some
      ((record { name = codes "c"; resource_claim_template_name = some (codes "used") } ∷ []) ∷ [])

reconcile_templates-AllExpired_example :
    All
      (IsExpired (template ∷ used ∷ []) (λ t. pos 10) (pos 5) live)
      (reconcile_templates (λ t. pos 10) (pos 5) live {E = ℕ} (λ m. m) (ok (template ∷ used ∷ [])))
reconcile_templates-AllExpired_example =
    reconcile_templates-AllExpired ℕ (λ t. pos 10) (pos 5) live (λ m. m) (template ∷ used ∷ [])
      (λ m g e. e)

abbrev matcher : AttributeMatcher
matcher = record { prefix = codes "eth"; exact = [] }

matches_device-iff_Accepts_example :
    (matches_device
        ((codes "name", matcher) ∷ [])
        ((codes "name", string_attribute (codes "eth0")) ∷ [])
      ≡ true)
    ↔ All
        (Accepts ((codes "name", string_attribute (codes "eth0")) ∷ []))
        ((codes "name", matcher) ∷ [])
matches_device-iff_Accepts_example =
    matches_device-iff_Accepts ((codes "name", matcher) ∷ [])
      ((codes "name", string_attribute (codes "eth0")) ∷ [])

matches_eth0 :
    matches_device
      ((codes "name", matcher) ∷ [])
      ((codes "name", string_attribute (codes "eth0")) ∷ [])
    ≡ true
unfolding matches_device codes lookup str_eq has_prefix get_attr_string matches_text
matches_eth0 = refl
