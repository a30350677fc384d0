-- ===== src/Synthesizer/Explicit/Taken.antt =====
-- Which devices are consumed, and what a pair may choose.
use composite_dra_driver.Prelude.{
  ◌≡◌, Bool, true, false, List, [], ◌∷◌, Option, none, some, ℤ, pos, negsuc, len_lt, GoString,
  GoMap, lookup, lookup_or, insert, has, length, All, All-insert, All-take, Bool-cases,
  Option-cases, inl, inr,
}
use composite_dra_driver.Prelude.Run.{IfReturns, IfReturns-bind}
use composite_dra_driver.Config.{MemberConfig, ExplicitPairConfig}
use composite_dra_driver.Store.Devices.{HasNoSlash}
use composite_dra_driver.Resource.{Attributes}
use composite_dra_driver.Synthesizer.Devices.{SourceDevice, CompositeDevice, DeviceMap}
use composite_dra_driver.Synthesizer.Build.Origin.{AllChosen}
use composite_dra_driver.Synthesizer.Explicit.{
  Consumed, match_devices, first_devices, matched_for, pair_members, place,
}

unfoldable pub taken : Consumed → GoString → GoString → Bool
taken consumed src device = has device (lookup_or [] src consumed)

abbrev pub IsFree : Consumed → GoString → GoString → Type 0
IsFree consumed src device = taken consumed src device ≡ false

abbrev pub IsTaken : Consumed → GoString → GoString → Type 0
IsTaken consumed src device = taken consumed src device ≡ true

match_devices-AllFree :
    (matches : Attributes → Bool) (consumed : Consumed) (src : GoString) (devs : List SourceDevice)
    → All
        (λ d. IsFree consumed src d.device_name)
        (match_devices matches (lookup_or [] src consumed) devs)
unfolding match_devices taken
match_devices-AllFree matches consumed src [] = tt
match_devices-AllFree matches consumed src (dev ∷ devs) =
    let rest = match_devices-AllFree matches consumed src devs in
    elim (Bool-cases (has dev.device_name (lookup_or [] src consumed))) [
      | inl used ↦ rw used rest
      | inr free ↦ elim (Bool-cases (matches dev.attributes)) [
        | inl fits ↦ rw (free, fits) (free, rest)
        | inr misses ↦ rw (free, misses) rest
      ]
    ]

-- what a step that chooses devices leaves: free ones only
module _ (matches : GoString → Attributes → Bool) (by_source : DeviceMap)
    (consumed : Consumed) where
  unfoldable pub AllFound : Option DeviceMap → Type 0
  AllFound none = Unit
  AllFound (some combo) = AllChosen (IsFree consumed) combo

  first_devices-AllFree :
      (src : GoString) (devs : List SourceDevice) (k : ℤ)
      → All (λ d. IsFree consumed src d.device_name) devs
      → IfReturns (All (λ d. IsFree consumed src d.device_name)) (first_devices devs k)
  unfolding first_devices
  first_devices-AllFree src devs (pos k) h =
      All-take (λ d. IsFree consumed src d.device_name) k devs h
  first_devices-AllFree src devs (negsuc k) h = tt

  pub pair_members-AllFound :
      (selectors : GoMap GoString) (ms : List MemberConfig) (combo : DeviceMap)
      → AllChosen (IsFree consumed) combo
      → IfReturns AllFound (pair_members matches by_source consumed selectors ms combo)
  unfolding pair_members AllFound
  pair_members-AllFound selectors [] combo h = h
  pair_members-AllFound selectors (m ∷ ms) combo h =
      elim (Option-cases (lookup m.source selectors)) [
        | inl e ↦ rw (e, pair_members) tt
        | inr (sel, e) ↦
            let matched = matched_for matches by_source consumed m sel in
            rw (e, pair_members)
              (elim (Bool-cases (len_lt (length matched) m.count)) [
                | inl short ↦ rw short tt
                | inr enough ↦ rw enough (
                    IfReturns-bind (All (λ d. IsFree consumed m.source d.device_name)) AllFound
                      (first_devices matched m.count) _
                      (first_devices-AllFree m.source matched m.count
                        (match_devices-AllFree (matches sel) consumed m.source _))
                      (λ chosen c.
                        pair_members-AllFound selectors ms (insert m.source chosen combo) (
                          All-insert
                            (λ (e : GoString × List SourceDevice).
                              All (λ d. IsFree consumed e.0 d.device_name) e.1)
                            m.source chosen combo c h)))
              ])
      ]

-- the name is kept
pub place-HasNoSlash :
    (ep : ExplicitPairConfig) (cd : CompositeDevice)
    → HasNoSlash cd.name
    → HasNoSlash (place ep cd).name
unfolding place
place-HasNoSlash ep cd h = h
