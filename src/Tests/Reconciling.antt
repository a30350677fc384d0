-- ===== src/Tests/Reconciling.antt =====
-- The orphan reconciler at a concrete cluster: the composite claim of one shadow claim is gone, the one
-- of another is there, and a third claim is not the driver's.
use composite_dra_driver.Prelude.{
  ℕ, ◌≡◌, ◌≢◌, refl, [], ◌∷◌, none, GoString, codes, ticked, done, str_eq, str_eq_iff, true, false,
  lookup_or, lookup, truncate, if◌then◌else◌,
}
use composite_dra_driver.Prelude.Result.{Result, ok, err}
use composite_dra_driver.Plugin.{ResourceClaim}
use composite_dra_driver.Shadow.Claims.{ShadowClaim, shadow_claim, shadow_claim_name}
use composite_dra_driver.Plugin.Orphans.{start_reconciler}
use composite_dra_driver.Plugin.Orphans.Collected.{
  reconciled, claim_key, remaining, remains, selects, owner_of, start_reconciler_lem,
}
use composite_dra_driver.Tests.Shadows.{claim, gpu}

-- a claim that is there, without an allocation
abbrev there : ResourceClaim
there = record { namespace = codes "ns"; name = codes "there"; uid = codes "v"; allocation = none }

abbrev get : GoString → GoString → Result ℕ ResourceClaim
get namespace name = if str_eq name (codes "there") then ok there else err 404

abbrev orphan : ShadowClaim
orphan = shadow_claim (λ s. s) (codes "composite") claim gpu (codes "r")

abbrev owned : ShadowClaim
owned = record (shadow_claim (λ s. s) (codes "composite") there gpu (codes "r")) {
  name = codes "owned";
}

abbrev other : ShadowClaim
other = record orphan { name = codes "x"; labels = (codes "composite-claim-uid", codes "u") ∷ [] }

other_name : (a b : ShadowClaim) → str_eq a.name b.name ≡ false → claim_key a ≢ claim_key b
other_name a b h e =
    let same : str_eq a.name b.name ≡ true = (str_eq_iff a.name b.name).1 (λ i. (e i).1) in cc

start_reconciler_lem_example :
    start_reconciler
      (reconciled get (codes "composite"))
      (ticked ∷ ticked ∷ done ∷ [])
      (orphan ∷ owned ∷ other ∷ [])
    ≡ owned ∷ other ∷ []
unfolding remaining remains selects owner_of shadow_claim shadow_claim_name lookup_or lookup str_eq
    codes truncate
start_reconciler_lem_example =
    start_reconciler_lem get (codes "composite") (ticked ∷ done ∷ []) (orphan ∷ owned ∷ other ∷ [])
      (
        (other_name orphan owned refl, (other_name orphan other refl, tt)),
        ((other_name owned other refl, tt), (tt, tt)),
      )
