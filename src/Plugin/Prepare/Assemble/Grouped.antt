-- ===== src/Plugin/Prepare/Assemble/Grouped.antt =====
-- What each prepared device has.
use composite_dra_driver.Prelude.{
  ℕ, zero, suc, ◌==◌, ◌≡◌, refl, sym, ap, ◌∙◌, arith, List, [], ◌∷◌, ◌++◌, append_assoc, append-nil,
  Option, none, some, GoString, Bool-cases, inl, inr, if◌then◌else◌,
}
use composite_dra_driver.Plugin.{PreparedDevice}
use composite_dra_driver.Plugin.Prepare.Assemble.{
  MemberWork, PairMap, find_pair, device_of, add_ids, assemble, with_device, all_devices,
}

-- the device IDs of the work items of the composite device `i`, in their order
pub ids_of : ℕ → List (MemberWork × List GoString) → List GoString
ids_of i [] = []
ids_of i ((w, ids) ∷ rest) = if w.pair_idx == i then ids ++ ids_of i rest else ids_of i rest

-- the first work item of the composite device `i`
pub first_of : ℕ → List (MemberWork × List GoString) → Option MemberWork
first_of i [] = none
first_of i ((w, ids) ∷ rest) = if w.pair_idx == i then some w else first_of i rest

with_ids : List GoString → MemberWork → PreparedDevice
unfolding device_of
with_ids ids w = device_of w ids

-- The device of index `i`: the request, pool and name of the first work item, and all the IDs.
pub prepared_device : List GoString → Option MemberWork → Option PreparedDevice
unfolding with_ids
prepared_device ids none = none
prepared_device ids (some w) = some (with_ids ids w)

pub devices_from : ℕ → ℕ → List (MemberWork × List GoString) → List PreparedDevice
unfolding prepared_device ids_of first_of with_device
devices_from i zero work = []
devices_from i (suc n) work =
    with_device (prepared_device (ids_of i work) (first_of i work)) (devices_from (suc i) n work)

more_ids : List GoString → Option PreparedDevice → Option PreparedDevice
more_ids ids none = none
more_ids ids (some dev) = some (record dev { cdi_device_ids = dev.cdi_device_ids ++ ids })

-- a device that is there has more IDs, and otherwise the work makes it
joined : Option PreparedDevice → List GoString → Option MemberWork → Option PreparedDevice
unfolding more_ids prepared_device
joined none ids w = prepared_device ids w
joined (some dev) ids w = more_ids ids (some dev)

find_pair-add_ids :
    (i : ℕ) (w : MemberWork) (ids : List GoString) (m : PairMap)
    → find_pair i (add_ids w ids m)
      ≡ (if w.pair_idx == i then joined (find_pair i m) ids (some w) else find_pair i m)
unfolding find_pair add_ids joined more_ids prepared_device with_ids
find_pair-add_ids i w ids [] = ground arith
find_pair-add_ids i w ids ((j, dev) ∷ m) = ground (arith, find_pair-add_ids i w ids m)

joined-more :
    (dev : Option PreparedDevice) (ids more : List GoString) (w : MemberWork)
    (v : Option MemberWork)
    → joined (joined dev ids (some w)) more v ≡ joined dev (ids ++ more) (some w)
unfolding joined more_ids prepared_device with_ids device_of
joined-more none ids more w v = refl
joined-more (some dev) ids more w v =
    ap (λ all. some (record dev { cdi_device_ids = all }))
      (append_assoc dev.cdi_device_ids ids more)

joined-none : (dev : Option PreparedDevice) → joined dev [] none ≡ dev
unfolding joined more_ids prepared_device
joined-none none = refl
joined-none (some dev) =
    ap (λ all. some (record dev { cdi_device_ids = all })) (append-nil dev.cdi_device_ids)

find_pair-assemble :
    (i : ℕ) (work : List (MemberWork × List GoString)) (m : PairMap)
    → find_pair i (assemble work m) ≡ joined (find_pair i m) (ids_of i work) (first_of i work)
unfolding assemble joined ids_of first_of
find_pair-assemble i [] m = sym (joined-none (find_pair i m))
find_pair-assemble i ((w, ids) ∷ work) m =
    find_pair-assemble i work (add_ids w ids m)
    ∙ rw (find_pair-add_ids i w ids m) (elim (Bool-cases (w.pair_idx == i)) [
      | inl e ↦ rw e (joined-more (find_pair i m) ids (ids_of i work) w (first_of i work))
      | inr e ↦ rw e refl
    ])

all_devices-from :
    (i n : ℕ) (work : List (MemberWork × List GoString))
    → all_devices i n (assemble work []) ≡ devices_from i n work
unfolding all_devices devices_from joined find_pair
all_devices-from i zero work = refl
all_devices-from i (suc n) work =
    rw (find_pair-assemble i work [], all_devices-from (suc i) n work) refl

pub assemble_lem :
    (n : ℕ) (work : List (MemberWork × List GoString))
    → all_devices 0 n (assemble work []) ≡ devices_from 0 n work
assemble_lem n work = all_devices-from 0 n work
