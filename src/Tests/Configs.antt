-- ===== src/Tests/Configs.antt =====
-- The validation and the stores at concrete inputs.
use composite_dra_driver.Prelude.{
  ◌≡◌, ◌↔◌, refl, [], ◌∷◌, none, some, pos, codes, str_eq, has, ◌&&◌, if◌then◌else◌, arith,
}
use composite_dra_driver.Prelude.Result.{ok, err}
use composite_dra_driver.Config.Validation.{validate, duplicate_composition}
use composite_dra_driver.Config.Validation.Spec.{IsValid}
use composite_dra_driver.Config.Validation.Exact.{validate-iff_IsValid}
use composite_dra_driver.Store.{DeviceMapping}
use composite_dra_driver.Store.Devices.{new_device_store, put, get, remove, get-put-remove}
use composite_dra_driver.Tests.Samples.{config, pair}

validate-iff_IsValid_example : (validate config ≡ ok tt) ↔ IsValid config
validate-iff_IsValid_example = validate-iff_IsValid config

pub config_valid : validate config ≡ ok tt
unfolding validate has str_eq codes
config_valid = refl

twice :
    validate (record config { compositions = pair ∷ pair ∷ [] })
    ≡ err (duplicate_composition (codes "pair"))
unfolding validate has str_eq codes
twice = refl

abbrev mapping : DeviceMapping
mapping = record {
  composition_name = codes "pair";
  members = [];
  rail_index = pos 0;
  numa_node = pos 0;
}

get-put-remove_example :
    (get (codes "p") (103 ∷ 49 ∷ []) (put (codes "p") (103 ∷ []) mapping new_device_store) ≡ (
      if str_eq (codes "p") (codes "p") && str_eq (103 ∷ []) (103 ∷ 49 ∷ [])
      then some mapping
      else get (codes "p") (103 ∷ 49 ∷ []) new_device_store))
    × (get (codes "p") (103 ∷ 49 ∷ []) (remove (codes "p") (103 ∷ []) new_device_store) ≡ (
        if str_eq (codes "p") (codes "p") && str_eq (103 ∷ []) (103 ∷ 49 ∷ [])
        then none
        else get (codes "p") (103 ∷ 49 ∷ []) new_device_store))
get-put-remove_example =
    get-put-remove (codes "p") (codes "p") (103 ∷ []) (103 ∷ 49 ∷ []) mapping new_device_store
      (omega arith) (omega arith)
