-- ===== src/Plugin/State.antt =====
-- pkg/plugin/plugin.go: persisting the shadow records and restoring them. An error of the state
-- store is only logged.
pub mod Restored
use composite_dra_driver.Prelude.{List, [], ◌∷◌, map, Option, none, some, GoString, GoMap, insert}
use composite_dra_driver.Prelude.Result.{Result, ok, err}
use composite_dra_driver.Store.State.{
  ShadowEntry, StoredShadows, Bucket, save_shadows, delete_shadows, list_all,
}
use composite_dra_driver.Plugin.{ShadowRecord, ResourceClaim, CompositePlugin}

pub to_entry : ShadowRecord → ShadowEntry
to_entry sr = record {
  driver_name = sr.driver_name;
  namespace = sr.info.namespace;
  name = sr.info.name;
  uid = sr.info.uid;
  composition = sr.composition;
}

pub of_entry : ShadowEntry → ShadowRecord
of_entry entry = record {
  driver_name = entry.driver_name;
  composition = entry.composition;
  info = record { namespace = entry.namespace; name = entry.name; uid = entry.uid };
}

-- the record that is saved for a claim
unfoldable pub stored : ResourceClaim → List ShadowRecord → StoredShadows
unfolding to_entry
stored claim shadows = record {
  composite_claim_uid = claim.uid;
  namespace = claim.namespace;
  shadows = map to_entry shadows;
}

-- the loop over the records
pub restore_records : List StoredShadows → GoMap (List ShadowRecord) → GoMap (List ShadowRecord)
unfolding of_entry
restore_records [] m = m
restore_records (rec ∷ recs) m =
    restore_records recs (insert rec.composite_claim_uid (map of_entry rec.shadows) m)

module _ {ℓ} {E : Type ℓ} (marshal : StoredShadows → Result E GoString)
    (unmarshal : GoString → Result E StoredShadows) where
  unfoldable pub persist_shadows :
      Option E → ResourceClaim → List ShadowRecord → Option Bucket → Option Bucket
  persist_shadows fault claim shadows none = none
  persist_shadows fault claim shadows (some b) =
      some (save_shadows marshal unmarshal fault (stored claim shadows) b).1

  -- what `ListAll` returns is restored, unless its transaction failed
  unfoldable pub restore_from_state :
      Option E → Bucket → GoMap (List ShadowRecord) → GoMap (List ShadowRecord)
  unfolding restore_records
  restore_from_state none b m = restore_records (list_all marshal unmarshal b) m
  restore_from_state (some e) b m = m

unfoldable pub delete_shadow_state {ℓ} :
    {E : Type ℓ} → Option E → GoString → Option Bucket → Option Bucket
delete_shadow_state fault uid none = none
delete_shadow_state fault uid (some b) = some (delete_shadows fault uid b).1
