-- ===== src/Command.antt =====
-- cmd: the two programs, the driver of a node and the webhook.
pub mod Flags
pub mod Driver
pub mod Server
use composite_dra_driver.Prelude.{◌≡◌, [], GoString, is_empty, if◌then◌else◌}
use composite_dra_driver.Prelude.Result.{Result, ok, err}

-- `buildRESTConfig`, the same in both programs: `from_flags` is clientcmd's, `in_cluster` rest's
unfoldable pub build_rest_config {ℓ κ} :
    {E : Type ℓ} {C : Type κ}
    → (GoString → GoString → Result E C)
    → Result E C
    → GoString
    → Result E C
build_rest_config from_flags in_cluster kubeconfig =
    if is_empty kubeconfig then in_cluster else from_flags [] kubeconfig

-- `klog.Fatalf` on an error
unfoldable pub or_fatal {ℓ κ μ} :
    {E : Type ℓ} {F : Type κ} {A : Type μ} → (E → F) → Result E A → Result F A
or_fatal f (err e) = err (f e)
or_fatal f (ok a) = ok a

pub or_fatal-ok {ℓ κ μ} :
    {E : Type ℓ} {F : Type κ} {A : Type μ} (f : E → F) (r : Result E A) (a : A)
    → or_fatal f r ≡ ok a
    → r ≡ ok a
unfolding or_fatal
or_fatal-ok f (ok b) a h = cc
or_fatal-ok f (err e) a h = cc
