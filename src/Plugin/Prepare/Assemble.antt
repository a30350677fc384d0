-- ===== src/Plugin/Prepare/Assemble.antt =====
-- pkg/plugin/plugin.go: grouping the work items by composite device.
pub mod Grouped
use composite_dra_driver.Prelude.{
  ℕ, zero, suc, ◌==◌, List, [], ◌∷◌, ◌++◌, Option, none, some, GoString, if◌then◌else◌,
}
use composite_dra_driver.Store.{DeviceMember}
use composite_dra_driver.Plugin.{AllocationResult, PreparedDevice}

-- `memberWork`'s inputs
pub record MemberWork : Type 0 where
  pub pair_idx : ℕ
  pub member_idx : ℕ
  pub member : DeviceMember
  pub alloc_result : AllocationResult
  pub opaque_config : Option GoString

-- `devicesByPair`
abbrev pub PairMap : Type 0
PairMap = List (ℕ × PreparedDevice)

pub find_pair : ℕ → PairMap → Option PreparedDevice
find_pair i [] = none
find_pair i ((j, dev) ∷ m) = if j == i then some dev else find_pair i m

pub device_of : MemberWork → List GoString → PreparedDevice
device_of w ids = record {
  requests = w.alloc_result.request ∷ [];
  pool_name = w.alloc_result.pool;
  device_name = w.alloc_result.device;
  cdi_device_ids = ids;
}

-- a new device, or more IDs for the one that is there
pub add_ids : MemberWork → List GoString → PairMap → PairMap
unfolding device_of
add_ids w ids [] = (w.pair_idx, device_of w ids) ∷ []
add_ids w ids ((j, dev) ∷ m) =
    if j == w.pair_idx
    then (j, record dev { cdi_device_ids = dev.cdi_device_ids ++ ids }) ∷ m
    else (j, dev) ∷ add_ids w ids m

unfoldable pub assemble : List (MemberWork × List GoString) → PairMap → PairMap
unfolding add_ids
assemble [] m = m
assemble ((w, ids) ∷ rest) m = assemble rest (add_ids w ids m)

-- `found` at an index without members is skipped
pub with_device : Option PreparedDevice → List PreparedDevice → List PreparedDevice
with_device none devs = devs
with_device (some dev) devs = dev ∷ devs

-- the loop on `i`: `n` indices from `i` on
unfoldable pub all_devices : ℕ → ℕ → PairMap → List PreparedDevice
unfolding find_pair with_device
all_devices i zero m = []
all_devices i (suc n) m = with_device (find_pair i m) (all_devices (suc i) n m)
