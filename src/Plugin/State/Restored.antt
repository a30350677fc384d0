-- ===== src/Plugin/State/Restored.antt =====
-- What was persisted is restored.
use composite_dra_driver.Prelude.{
  ◌≡◌, ◌≢◌, refl, sym, ap, ◌∙◌, arith, List, [], ◌∷◌, map, Option, none, some, GoString, GoMap,
  lookup, insert, delete, keys, lookup-insert, lookup-delete, insert-AllDistinct,
  delete-AllDistinct, All, All-insert, All-delete, AllDistinct, str_eq, str_eq_iff, Bool-cases, inl,
  inr, if◌then◌else◌,
}
use composite_dra_driver.Prelude.Result.{Result, ok, err, Result-cases}
use composite_dra_driver.Store.State.{StoredShadows, Bucket, save_shadows, list_all}
use composite_dra_driver.Plugin.{ShadowRecord, ResourceClaim}
use composite_dra_driver.Plugin.State.{
  to_entry, of_entry, stored, restore_records, restore_from_state,
}

module _ {ℓ} {E : Type ℓ} (marshal : StoredShadows → Result E GoString)
    (unmarshal : GoString → Result E StoredShadows) where
  -- a record that decodes stands under its own UID
  abbrev pub IsKeyed : GoString × GoString → Type ℓ
  IsKeyed (k, data_) =
      (rec : StoredShadows) → unmarshal data_ ≡ ok rec → rec.composite_claim_uid ≡ k

  -- what a claim's entry restores to
  restored_of : Result E StoredShadows → Option (List ShadowRecord) → Option (List ShadowRecord)
  restored_of (err e) before = before
  restored_of (ok rec) before = some (map of_entry rec.shadows)

  restored : Option GoString → Option (List ShadowRecord) → Option (List ShadowRecord)
  unfolding restored_of
  restored none before = before
  restored (some data_) before = restored_of (unmarshal data_) before

  not-in-bucket : (c : GoString) (b : Bucket) → All (λ j. c ≢ j) (keys b) → lookup c b ≡ none
  unfolding lookup
  not-in-bucket c [] h = refl
  not-in-bucket c ((k, d) ∷ b) (ne, h) = ground (arith, str_eq_iff k c, not-in-bucket c b h)

  lookup-restore_records :
      (uid : GoString) (b : Bucket) (m : GoMap (List ShadowRecord))
      → All IsKeyed b
      → AllDistinct (keys b)
      → lookup uid (restore_records (list_all marshal unmarshal b) m)
        ≡ restored (lookup uid b) (lookup uid m)
  unfolding restore_records list_all restored restored_of lookup
  lookup-restore_records uid [] m h d = refl
  lookup-restore_records uid ((k, data_) ∷ b) m (keyed, h) (ne, d) =
      elim (Result-cases (unmarshal data_)) [
        | inl (x, e) ↦
            let ih = lookup-restore_records uid b m h d in
            elim (Bool-cases (str_eq k uid)) [
              | inl same ↦
                  let here : lookup uid b ≡ none =
                    not-in-bucket uid b (rw ((str_eq_iff k uid).0 same) at ne) in
                  rw (same, e) (rw here at ih)
              | inr other ↦ rw (other, e) ih
            ]
        | inr (rec, e) ↦
            let shadows = map of_entry rec.shadows in
            let m' = insert rec.composite_claim_uid shadows m in
            let ih = lookup-restore_records uid b m' h d in
            let now = lookup-insert rec.composite_claim_uid uid shadows m in
            let named : rec.composite_claim_uid ≡ k = keyed rec e in
            let tested : str_eq rec.composite_claim_uid uid ≡ str_eq k uid =
              ap (λ j. str_eq j uid) named in
            elim (Bool-cases (str_eq k uid)) [
              | inl same ↦
                  let here : lookup uid b ≡ none =
                    not-in-bucket uid b (rw ((str_eq_iff k uid).0 same) at ne) in
                  rw (same, e) ((rw here at ih) ∙ now ∙ rw (tested, same) refl)
              | inr other ↦
                  rw (other, e) (ih ∙ ap (restored (lookup uid b)) (now ∙ rw (tested, other) refl))
            ]
      ]

-- What a restart restores after a claim's record is deleted.
module _ {ℓ} {E : Type ℓ} (marshal : StoredShadows → Result E GoString)
    (unmarshal : GoString → Result E StoredShadows) where
  pub restore-delete :
      (uid j : GoString) (b : Bucket)
      → All (IsKeyed marshal unmarshal) b
      → AllDistinct (keys b)
      → lookup j (restore_from_state marshal unmarshal none (delete uid b) [])
        ≡ (if str_eq uid j then none else lookup j (restore_from_state marshal unmarshal none b []))
  unfolding restore_from_state restored lookup
  restore-delete uid j b keyed distinct =
      lookup-restore_records marshal unmarshal j (delete uid b) []
        (All-delete (IsKeyed marshal unmarshal) uid b keyed) (delete-AllDistinct uid b distinct)
      ∙ (rw (lookup-delete uid j b) (elim (Bool-cases (str_eq uid j)) [
        | inl same ↦ rw same refl
        | inr other ↦
            rw other (sym (lookup-restore_records marshal unmarshal j b [] keyed distinct))
      ]))

entries_back : (shadows : List ShadowRecord) → map of_entry (map to_entry shadows) ≡ shadows
unfolding of_entry to_entry
entries_back [] = refl
entries_back (sr ∷ srs) = ap (◌∷◌ sr) (entries_back srs)

module _ {ℓ} {E : Type ℓ} (marshal : StoredShadows → Result E GoString)
    (unmarshal : GoString → Result E StoredShadows) (b : Bucket) (claim : ResourceClaim)
    (shadows : List ShadowRecord) (data_ : GoString) where
  -- If the JSON of the record decodes to the record, the bucket's records stand under their own
  -- UIDs and neither transaction fails, then a driver that restarts after persisting a claim's
  -- shadow records restores, for the claim, these records, and for any other claim what it would
  -- have restored before.
  pub restore-persist :
      (uid : GoString)
      → marshal (stored claim shadows) ≡ ok data_
      → unmarshal data_ ≡ ok (stored claim shadows)
      → All (IsKeyed marshal unmarshal) b
      → AllDistinct (keys b)
      → (let b' = (save_shadows marshal unmarshal none (stored claim shadows) b).1 in
          lookup uid (restore_from_state marshal unmarshal none b' []) ≡ (
            if str_eq claim.uid uid
            then some shadows
            else lookup uid (restore_from_state marshal unmarshal none b [])))
  unfolding restore_from_state save_shadows stored restored restored_of
  restore-persist uid writes reads keyed distinct =
      let named : IsKeyed marshal unmarshal (claim.uid, data_) =
        λ rec e. (let q : rec ≡ stored claim shadows = cc in ap (λ r. r.composite_claim_uid) q) in
      rw writes (
        lookup-restore_records marshal unmarshal uid (insert claim.uid data_ b) []
          (All-insert (IsKeyed marshal unmarshal) claim.uid data_ b named keyed)
          (insert-AllDistinct claim.uid data_ b distinct)
        ∙ (rw (lookup-insert claim.uid uid data_ b) (elim (Bool-cases (str_eq claim.uid uid)) [
          | inl same ↦ rw (same, reads) (ap some (entries_back shadows))
          | inr other ↦
              rw other (sym (lookup-restore_records marshal unmarshal uid b [] keyed distinct))
        ])))
