-- ===== src/Tests/Claims.antt =====
-- The claim manager on a cluster that is a list of claims, and whose status updates fail.
use composite_dra_driver.Prelude.{ℕ, List, [], ◌∷◌, Option, none, some, GoString, if◌then◌else◌}
use composite_dra_driver.Prelude.Result.{Result, ok, err}
use composite_dra_driver.Shadow.Claims.{ShadowClaim, ClaimsApi, create}
use composite_dra_driver.Shadow.Claims.Atomic.{is_named}

find : GoString → GoString → List ShadowClaim → Option ShadowClaim
find n m [] = none
find n m (c ∷ cs) = if is_named c.namespace c.name n m then some c else find n m cs

remove : GoString → GoString → List ShadowClaim → List ShadowClaim
remove n m [] = []
remove n m (c ∷ cs) =
    let rest = remove n m cs in if is_named c.namespace c.name n m then rest else c ∷ rest

created :
    ShadowClaim → Option ShadowClaim → List ShadowClaim → Result ℕ ShadowClaim × List ShadowClaim
created c none s = (ok c, c ∷ s)
created c (some old) s = (err 0, s)

abbrev api : ClaimsApi ℕ (List ShadowClaim)
api = record {
  create = λ c s. created c (find c.namespace c.name s) s;
  update_status = λ c s. (err 1, s);
  get = λ n m s. err 0;
  list = λ n selector s. ok s;
  delete = λ n m s. (none, remove n m s);
}
