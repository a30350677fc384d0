-- ===== src/Tests/Lifecycle.antt =====
-- The plugin's states at concrete inputs, with an encoding of records that decodes.
use composite_dra_driver.Prelude.{
  ℕ, zero, suc, ◌≡◌, refl, ap, List, [], ◌∷◌, ◌++◌, Option, none, some, GoString, codes, length,
  take, drop, lookup, str_eq, insert,
}
use composite_dra_driver.Prelude.Result.{Result, ok, err}
use composite_dra_driver.Store.Devices.{put, get, key}
use composite_dra_driver.Store.State.{ShadowEntry, StoredShadows, list_all}
use composite_dra_driver.Plugin.{CompositePlugin, Call}
use composite_dra_driver.Plugin.Prepare.{
  Answers, made, prepare_claim, collect, first_error, grpc_phase, shadows_of,
}
use composite_dra_driver.Plugin.State.{stored}
use composite_dra_driver.Plugin.Unprepare.{NamespacedObject, unprepare_claim}
use composite_dra_driver.Plugin.Lifecycle.{
  RecordsAscii, is_ascii_record, is_ascii, are_ascii, new_composite_plugin, restart, prepare,
  synthesize, Reach, start, next,
}
use composite_dra_driver.Plugin.Lifecycle.Persisted.{IsCodec, Reach-restart}
use composite_dra_driver.Tests.Shadows.{claim, mapping, info}

-- a text with its length before it
text : GoString → GoString → GoString
text s rest = length s ∷ s ++ rest

-- the text at the start, and the rest
read_text : GoString → GoString × GoString
read_text [] = ([], [])
read_text (n ∷ s) = (take n s, drop n s)

take-length {ℓ} : {A : Type ℓ} (s t : List A) → take (length s) (s ++ t) ≡ s
take-length [] t = refl
take-length (a ∷ s) t = ap (◌∷◌ a) (take-length s t)

drop-length {ℓ} : {A : Type ℓ} (s t : List A) → drop (length s) (s ++ t) ≡ t
drop-length [] t = refl
drop-length (a ∷ s) t = drop-length s t

read_text-text : (s rest : GoString) → read_text (text s rest) ≡ (s, rest)
unfolding read_text text
read_text-text s rest = rw (take-length s rest, drop-length s rest) refl

entry : ShadowEntry → GoString → GoString
entry e rest =
    text e.driver_name (text e.namespace (text e.name (text e.uid (text e.composition rest))))

read_entry : GoString → ShadowEntry × GoString
read_entry s0 =
    let (driver_name, s1) = read_text s0 in
    let (namespace, s2) = read_text s1 in
    let (name, s3) = read_text s2 in
    let (uid, s4) = read_text s3 in
    let (composition, s5) = read_text s4 in
    (
      record {
        driver_name = driver_name;
        namespace = namespace;
        name = name;
        uid = uid;
        composition = composition;
      },
      s5,
    )

read_entry-entry : (e : ShadowEntry) (rest : GoString) → read_entry (entry e rest) ≡ (e, rest)
unfolding read_entry entry
read_entry-entry e rest =
    rw (read_text-text, read_text-text, read_text-text, read_text-text, read_text-text) refl

entries : List ShadowEntry → GoString
unfolding entry
entries [] = []
entries (e ∷ es) = entry e (entries es)

read_entries : ℕ → GoString → List ShadowEntry
read_entries zero s = []
read_entries (suc n) s = let (e, rest) = read_entry s in e ∷ read_entries n rest

read_entries-entries : (es : List ShadowEntry) → read_entries (length es) (entries es) ≡ es
unfolding read_entries entries
read_entries-entries [] = refl
read_entries-entries (e ∷ es) =
    rw (read_entry-entry e (entries es)) (ap (◌∷◌ e) (read_entries-entries es))

pub encode : StoredShadows → Result ℕ GoString
encode rec =
    ok
      (text rec.composite_claim_uid (text rec.namespace (length rec.shadows ∷ entries rec.shadows)))

read_shadows : GoString → List ShadowEntry
read_shadows [] = []
read_shadows (n ∷ s) = read_entries n s

pub decode : GoString → Result ℕ StoredShadows
decode s0 =
    let (uid, s1) = read_text s0 in
    let (namespace, s2) = read_text s1 in
    ok (record { composite_claim_uid = uid; namespace = namespace; shadows = read_shadows s2 })

pub codec : IsCodec encode decode
unfolding encode decode read_shadows
codec rec ascii =
    (_, refl, rw (read_text-text, read_text-text, read_entries-entries rec.shadows) refl)

abbrev pub answers : Answers ℕ
answers = record {
  created = λ w. made info;
  fetched = λ w. err 0;
  prepared = λ w sr. ok ((codes "cdi" ∷ []) ∷ []);
  fault = none;
}

-- a driver that has published a device
abbrev pub published : CompositePlugin
published = record {
  driver_name = codes "composite";
  device_store = put (codes "p") (codes "d") mapping (record { devices = [] });
  shadow_claims = [];
  state = some [];
}

pub published-Reach : Reach encode decode none (codes "composite") published
unfolding new_composite_plugin list_all
published-Reach = next start (synthesize published.device_store)

-- and then prepared a claim of it, with the records that this leaves
abbrev pub prepared_plugin : CompositePlugin
prepared_plugin =
    (prepare_claim encode decode none answers.created answers.fetched answers.prepared none claim
      published).plugin

pub prepared-RecordsAscii : RecordsAscii encode decode none claim prepared_plugin
unfolding RecordsAscii is_ascii_record is_ascii are_ascii prepare_claim stored lookup collect str_eq
    codes get put insert key first_error grpc_phase shadows_of
prepared-RecordsAscii = refl

abbrev pub prepared : (p : CompositePlugin) × Reach encode decode none (codes "composite") p
prepared =
    (prepared_plugin, next published-Reach (prepare claim answers refl prepared-RecordsAscii))

Reach-restart_example :
    (let p = prepared.0 in
      let p' = restart encode decode p in
      ((uid : GoString) → lookup uid p'.shadow_claims ≡ lookup uid p.shadow_claims)
      × ((answer : Call → Option ℕ) (claim : NamespacedObject)
          → (unprepare_claim answer none claim p').0 ≡ (unprepare_claim answer none claim p).0))
Reach-restart_example = Reach-restart encode decode none codec prepared.1
