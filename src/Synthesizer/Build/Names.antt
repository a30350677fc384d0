-- ===== src/Synthesizer/Build/Names.antt =====
-- The name of a composite device is made of names without slashes.
use composite_dra_driver.Prelude.{
  ℕ, suc, ◌≢◌, arith, List, [], ◌∷◌, Option, none, some, ℤ, GoString, codes, GoMap, lookup,
  lookup_or, length, truncate, All, All-append, All-take, ltb, Bool-cases, inl, inr,
}
use composite_dra_driver.Prelude.Run.{IfReturns, IfReturns-bind, IfReturns-any}
use composite_dra_driver.Config.{SourceConfig, MemberConfig, CompositionConfig}
use composite_dra_driver.Store.Devices.{HasNoSlash}
use composite_dra_driver.Synthesizer.Devices.{SourceDevice, DeviceMap, sanitize_name-HasNoSlash}
use composite_dra_driver.Synthesizer.Build.{
  Built, add_device, add_devices, add_members, promote_all, finish, join, build_composite_device,
}

truncate-HasNoSlash : (limit : ℕ) (s : GoString) → HasNoSlash s → HasNoSlash (truncate limit s)
unfolding truncate
truncate-HasNoSlash limit s h = elim (Bool-cases (ltb limit (length s))) [
  | inl e ↦ rw e (All-take (λ c. c ≢ b'/') limit s h)
  | inr e ↦ rw e h
]

join-HasNoSlash : (parts : List GoString) → All HasNoSlash parts → HasNoSlash (join parts)
unfolding join codes
join-HasNoSlash [] h = tt
join-HasNoSlash (part ∷ []) (p, h) = p
join-HasNoSlash (part ∷ next ∷ parts) (p, h) =
    All-append (λ c. c ≢ b'/') part _ p
      (omega arith, (omega arith, join-HasNoSlash (next ∷ parts) h))

abbrev AllParts : Built → Type 0
AllParts b = All HasNoSlash b.name_parts

add_devices-AllParts :
    (src : Option SourceConfig) (count : ℤ) (i : ℕ) (devs : List SourceDevice) (b : Built)
    → AllParts b
    → IfReturns AllParts (add_devices src count i devs b)
unfolding add_devices
add_devices-AllParts src count i [] b h = h
add_devices-AllParts none count i (dev ∷ devs) b h = tt
add_devices-AllParts (some src) count i (dev ∷ devs) b h =
    add_devices-AllParts (some src) count (suc i) devs (add_device src count i dev b) (
      unfold add_device in
      All-append HasNoSlash b.name_parts _ h (sanitize_name-HasNoSlash dev.device_name, tt))

add_members-AllParts :
    (sources : GoMap SourceConfig) (combo : DeviceMap) (ms : List MemberConfig) (b : Built)
    → AllParts b
    → IfReturns AllParts (add_members sources combo ms b)
unfolding add_members
add_members-AllParts sources combo [] b h = h
add_members-AllParts sources combo (m ∷ ms) b h =
    IfReturns-bind AllParts AllParts
      (add_devices (lookup m.source sources) m.count 0 (lookup_or [] m.source combo) b) _
      (add_devices-AllParts (lookup m.source sources) m.count 0 _ b h)
      (λ b' h'. add_members-AllParts sources combo ms b' h')

pub build-HasNoSlash :
    (range_combo : DeviceMap → DeviceMap) (sources : GoMap SourceConfig) (comp : CompositionConfig)
    (combo : DeviceMap)
    → IfReturns (λ cd. HasNoSlash cd.name) (build_composite_device range_combo sources comp combo)
unfolding build_composite_device finish
build-HasNoSlash range_combo sources comp combo =
    IfReturns-bind AllParts _ (add_members sources combo comp.members _) _
      (add_members-AllParts sources combo comp.members _ tt)
      λ b' h.
        IfReturns-bind (λ _. Unit) _ (promote_all comp.members combo comp.constraints b'.attrs) _
          (IfReturns-any _)
          λ attrs _. truncate-HasNoSlash 63 (join b'.name_parts) (join-HasNoSlash b'.name_parts h)
