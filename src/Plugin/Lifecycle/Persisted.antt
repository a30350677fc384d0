-- ===== src/Plugin/Lifecycle/Persisted.antt =====
-- The records of the state store and those in memory, in the states that the plugin reaches.
use composite_dra_driver.Prelude.{
  ◌≡◌, refl, sym, ap, ◌∙◌, List, [], Option, none, some, GoString, lookup, insert, delete, keys,
  true, lookup-insert, lookup-insert_self, lookup-delete, insert-AllDistinct, delete-AllDistinct,
  All, All-insert, All-delete, AllDistinct,
}
use composite_dra_driver.Prelude.Result.{Result, ok}
use composite_dra_driver.Store.State.{StoredShadows, Bucket, save_shadows, delete_shadows}
use composite_dra_driver.Plugin.{ShadowRecord, ResourceClaim, CompositePlugin, Call}
use composite_dra_driver.Plugin.State.{
  stored, restore_from_state, persist_shadows, delete_shadow_state,
}
use composite_dra_driver.Plugin.State.Restored.{IsKeyed, restore-persist, restore-delete}
use composite_dra_driver.Plugin.Prepare.{Resolve}
use composite_dra_driver.Plugin.Prepare.Effect.{prepare_claim_elim}
use composite_dra_driver.Plugin.Unprepare.Retry.{unprepare_claim-records}
use composite_dra_driver.Plugin.Unprepare.{NamespacedObject, unprepare_claim}
use composite_dra_driver.Plugin.Lifecycle.{
  is_ascii_record, RecordsAscii, new_composite_plugin, restart, Step, prepare, unprepare,
  synthesize, restarts, Reach, start, next,
}

module _ {E : Type 0} (marshal : StoredShadows → Result E GoString)
    (unmarshal : GoString → Result E StoredShadows) where
  -- every record of ASCII texts has a JSON text, which decodes to the record
  abbrev pub IsCodec : Type 0
  IsCodec =
      (rec : StoredShadows)
      → is_ascii_record rec ≡ true
      → (data_ : GoString) × (marshal rec ≡ ok data_) × (unmarshal data_ ≡ ok rec)

  -- the records in memory are what the bucket `b` restores
  pub record IsPersisted (p : CompositePlugin) : Type 0 where
    pub b : Bucket
    pub saved : p.state ≡ some b
    pub keyed : All (IsKeyed marshal unmarshal) b
    pub distinct : AllDistinct (keys b)
    pub agree :
        (uid : GoString)
        → lookup uid p.shadow_claims ≡ lookup uid (restore_from_state marshal unmarshal none b [])

  delete-IsPersisted :
      (p : CompositePlugin) (uid : GoString)
      → IsPersisted p
      → IsPersisted (record p {
        shadow_claims = delete uid p.shadow_claims;
        state = delete_shadow_state {E = E} none uid p.state;
      })
  unfolding delete_shadow_state delete_shadows
  delete-IsPersisted p uid h = record {
    b = delete uid h.b;
    saved = rw h.saved refl;
    keyed = All-delete (IsKeyed marshal unmarshal) uid h.b h.keyed;
    distinct = delete-AllDistinct uid h.b h.distinct;
    agree = λ j.
        lookup-delete uid j p.shadow_claims
        ∙ rw (h.agree j) (sym (restore-delete marshal unmarshal uid j h.b h.keyed h.distinct));
  }

  persist-IsPersisted :
      IsCodec
      → (p : CompositePlugin) (claim : ResourceClaim) (shadows : List ShadowRecord)
      → is_ascii_record (stored claim shadows) ≡ true
      → IsPersisted p
      → IsPersisted (record p {
        shadow_claims = insert claim.uid shadows p.shadow_claims;
        state = persist_shadows marshal unmarshal none claim shadows p.state;
      })
  unfolding persist_shadows save_shadows stored
  persist-IsPersisted codec p claim shadows ascii h =
      let (data_, writes, reads) = codec (stored claim shadows) ascii in
      let named : IsKeyed marshal unmarshal (claim.uid, data_) =
        λ rec e. (let q : rec ≡ stored claim shadows = cc in ap (λ r. r.composite_claim_uid) q) in
      record {
        b = insert claim.uid data_ h.b;
        saved = rw (h.saved, writes) refl;
        keyed = All-insert (IsKeyed marshal unmarshal) claim.uid data_ h.b named h.keyed;
        distinct = insert-AllDistinct claim.uid data_ h.b h.distinct;
        agree = λ j.
            lookup-insert claim.uid j shadows p.shadow_claims
            ∙ rw (h.agree j) (
                sym (
                  rw writes at (
                    restore-persist marshal unmarshal h.b claim shadows data_ j writes reads h.keyed
                      h.distinct)));
      }

module _ {E : Type 0} (marshal : StoredShadows → Result E GoString)
    (unmarshal : GoString → Result E StoredShadows) (resolve : Resolve) where
  Step-IsPersisted :
      {p q : CompositePlugin}
      → IsCodec marshal unmarshal
      → Step marshal unmarshal resolve p q
      → IsPersisted marshal unmarshal p
      → IsPersisted marshal unmarshal q
  unfolding new_composite_plugin unprepare_claim RecordsAscii
  Step-IsPersisted {p} codec (prepare claim a ok_ ascii) h =
      let after =
        prepare_claim_elim marshal unmarshal resolve a.created a.fetched a.prepared none claim p
          (λ q. RecordsAscii marshal unmarshal resolve claim q → IsPersisted marshal unmarshal q)
          (λ _. h)
          (λ shadows recorded.
            persist-IsPersisted marshal unmarshal codec p claim shadows
              (rw (lookup-insert_self claim.uid shadows p.shadow_claims, RecordsAscii) at recorded)
              h) in
      rw ok_ (after (rw ok_ at ascii))
  Step-IsPersisted {p} codec (unprepare answer claim) h =
      delete-IsPersisted marshal unmarshal p claim.uid h
  Step-IsPersisted {p} codec (synthesize devices) h = record {
    b = h.b;
    saved = h.saved;
    keyed = h.keyed;
    distinct = h.distinct;
    agree = h.agree;
  }
  Step-IsPersisted {p} codec restarts h = rw h.saved (record {
    b = h.b;
    saved = refl;
    keyed = h.keyed;
    distinct = h.distinct;
    agree = λ uid. refl;
  })

  pub Reach-IsPersisted :
      {name : GoString} {p : CompositePlugin}
      → IsCodec marshal unmarshal
      → Reach marshal unmarshal resolve name p
      → IsPersisted marshal unmarshal p
  unfolding new_composite_plugin
  Reach-IsPersisted codec start = record {
    b = [];
    saved = refl;
    keyed = tt;
    distinct = tt;
    agree = λ uid. refl;
  }
  Reach-IsPersisted codec (next r st) = Step-IsPersisted codec st (Reach-IsPersisted codec r)

  restart-records :
      (p : CompositePlugin)
      → IsPersisted marshal unmarshal p
      → (uid : GoString)
      → lookup uid (restart marshal unmarshal p).shadow_claims ≡ lookup uid p.shadow_claims
  unfolding new_composite_plugin
  restart-records p h uid = rw h.saved (sym (h.agree uid))

  -- In every state that the plugin reaches by requests, answers and restarts in which no transaction
  -- of the state store fails and the records have ASCII texts, whose JSON decodes to them: a restart
  -- keeps the records of every claim, so the request to unprepare a claim makes the same calls and
  -- reports the same errors as without the restart.
  pub Reach-restart :
      {name : GoString} {p : CompositePlugin}
      → IsCodec marshal unmarshal
      → Reach marshal unmarshal resolve name p
      → (let p' = restart marshal unmarshal p in
          ((uid : GoString) → lookup uid p'.shadow_claims ≡ lookup uid p.shadow_claims)
          × ((answer : Call → Option E) (claim : NamespacedObject)
              → (unprepare_claim answer none claim p').0 ≡ (unprepare_claim answer none claim p).0))
  Reach-restart {p} codec r =
      let same = restart-records p (Reach-IsPersisted codec r) in
      (same, λ answer claim. unprepare_claim-records answer none claim _ p (same claim.uid))
