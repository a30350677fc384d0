-- ===== src/Store/State.antt =====
-- pkg/store/state.go: the persisted shadow claims. The bolt bucket is a map from keys to bytes, in
-- the order of `ForEach`. Parameters: `marshal` and `unmarshal` are encoding/json's, and the
-- argument of a method is the error of its transaction, if any, which leaves the bucket as it was.
use composite_dra_driver.Prelude.{
  ◌≡◌, refl, List, [], ◌∷◌, Option, none, some, GoString, is_empty, GoMap, lookup, insert, delete,
  if◌then◌else◌,
}
use composite_dra_driver.Prelude.Result.{Result, ok, err}

pub record ShadowEntry : Type 0 where
  pub driver_name : GoString
  pub namespace : GoString
  pub name : GoString
  pub uid : GoString
  pub composition : GoString

-- `store.ShadowRecord`
pub record StoredShadows : Type 0 where
  pub composite_claim_uid : GoString
  pub namespace : GoString
  pub shadows : List ShadowEntry

abbrev pub Bucket : Type 0
Bucket = GoMap GoString

pub data StateError (E : Type 0) : Type 0 where
  open_failed : GoString → E → StateError E
  init_failed : E → StateError E

-- `CreateBucketIfNotExists`
bucket_of : Option Bucket → Bucket
bucket_of none = []
bucket_of (some b) = b

init_bucket : {E : Type 0} → Option E → Option Bucket → Result (StateError E) Bucket
unfolding bucket_of
init_bucket none b = ok (bucket_of b)
init_bucket (some e) b = err (init_failed e)

-- `NewStateStore`: `opened` is the database, with the bucket if it has one, and `fault` the error of the
-- transaction that makes the bucket
unfoldable pub new_state_store :
    {E : Type 0} → GoString → Result E (Option Bucket) → Option E → Result (StateError E) Bucket
unfolding init_bucket
new_state_store path (err e) fault = err (open_failed path e)
new_state_store path (ok b) fault = init_bucket fault b

-- a store that has the bucket keeps it
pub new_state_store-some :
    {E : Type 0} (path : GoString) (b : Bucket)
    → new_state_store {E = E} path (ok (some b)) none ≡ ok b
unfolding new_state_store init_bucket bucket_of
new_state_store-some path b = refl

-- a transaction that fails changes nothing
pub update {ℓ} : {E : Type ℓ} → Option E → (Bucket → Bucket) → Bucket → Result E (Unit {0}) × Bucket
update none f b = (ok tt, f b)
update (some e) f b = (err e, b)

module _ {ℓ} {E : Type ℓ} (marshal : StoredShadows → Result E GoString)
    (unmarshal : GoString → Result E StoredShadows) where
  save_marshalled : Option E → GoString → Result E GoString → Bucket → Result E (Unit {0}) × Bucket
  unfolding update
  save_marshalled fault uid (err e) b = (err e, b)
  save_marshalled fault uid (ok data_) b = update fault (insert uid data_) b

  unfoldable pub save_shadows : Option E → StoredShadows → Bucket → Result E (Unit {0}) × Bucket
  unfolding save_marshalled
  save_shadows fault rec b = save_marshalled fault rec.composite_claim_uid (marshal rec) b

  -- a record without a UID reads as none
  unless_blank : StoredShadows → Option StoredShadows
  unless_blank rec = if is_empty rec.composite_claim_uid then none else some rec

  read : Option GoString → Result E (Option StoredShadows)
  unfolding unless_blank
  read none = ok none
  read (some data_) = elim (unmarshal data_) [ err e ↦ err e | ok rec ↦ ok (unless_blank rec) ]

  unfoldable pub get_shadows : GoString → Bucket → Result E (Option StoredShadows)
  unfolding read
  get_shadows uid b = read (lookup uid b)

  -- records that do not decode are skipped
  decode : Result E StoredShadows → List StoredShadows → List StoredShadows
  decode (err e) records = records
  decode (ok rec) records = rec ∷ records

  unfoldable pub list_all : Bucket → List StoredShadows
  unfolding decode
  list_all [] = []
  list_all ((k, data_) ∷ b) = decode (unmarshal data_) (list_all b)

unfoldable pub delete_shadows {ℓ} :
    {E : Type ℓ} → Option E → GoString → Bucket → Result E (Unit {0}) × Bucket
unfolding update
delete_shadows fault uid b = update fault (delete uid) b
