-- ===== src/Synthesizer/Build/Members.antt =====
-- What `buildCompositeDevice` puts together, and when it panics.
use composite_dra_driver.Prelude.{
  ℕ, suc, ◌≤◌, ◌≡◌, ◌≢◌, refl, List, [], ◌∷◌, Option, none, some, ℤ, length-truncate-le, GoMap,
  lookup, lookup_or, All-lookup_or, length, All, All-append,
}
use composite_dra_driver.Prelude.Run.{
  Run, returns, panics, Returns, Returns-bind, IfReturns, IfReturns-bind,
}
use composite_dra_driver.Config.{SourceConfig, MemberConfig, ConstraintConfig, CompositionConfig}
use composite_dra_driver.Resource.{Attributes}
use composite_dra_driver.Store.{DeviceMember}
use composite_dra_driver.Synthesizer.Devices.{SourceDevice, DeviceMap}
use composite_dra_driver.Synthesizer.Groupings.Selections.{AllDevices}
use composite_dra_driver.Synthesizer.Build.{
  Built, add_device, add_devices, add_members, promote_all, finish, build_composite_device,
}

module _ (R : Attributes → Type 0) where
  abbrev pub AllMembers : List DeviceMember → Type 0
  AllMembers = All (λ m. R m.attributes)

  abbrev OfDevices : SourceDevice → Type 0
  OfDevices d = R d.attributes

  add_devices-AllMembers :
      (src : Option SourceConfig) (count : ℤ) (i : ℕ) (devs : List SourceDevice) (b : Built)
      → All OfDevices devs
      → AllMembers b.members
      → IfReturns (λ b'. AllMembers b'.members) (add_devices src count i devs b)
  unfolding add_devices
  add_devices-AllMembers src count i [] b h a = a
  add_devices-AllMembers none count i (dev ∷ devs) b h a = tt
  add_devices-AllMembers (some src) count i (dev ∷ devs) b h a =
      add_devices-AllMembers (some src) count (suc i) devs (add_device src count i dev b) h.1
        (unfold add_device in All-append (λ m. R m.attributes) b.members _ a (h.0, tt))

  add_members-AllMembers :
      (sources : GoMap SourceConfig) (combo : DeviceMap) (ms : List MemberConfig) (b : Built)
      → AllDevices OfDevices combo
      → AllMembers b.members
      → IfReturns (λ b'. AllMembers b'.members) (add_members sources combo ms b)
  unfolding add_members
  add_members-AllMembers sources combo [] b h a = a
  add_members-AllMembers sources combo (m ∷ ms) b h a =
      IfReturns-bind (λ b'. AllMembers b'.members) _
        (add_devices (lookup m.source sources) m.count 0 _ b) _
        (add_devices-AllMembers (lookup m.source sources) m.count 0 _ b
          (All-lookup_or (λ e. All OfDevices e.1) [] m.source combo tt h) a)
        (λ b' a'. add_members-AllMembers sources combo ms b' h a')

  -- what holds of the attributes of the devices holds of those of the members
  pub build-AllMembers :
      (range_combo : DeviceMap → DeviceMap) (sources : GoMap SourceConfig)
      (comp : CompositionConfig) (combo : DeviceMap)
      → AllDevices OfDevices combo
      → IfReturns
          (λ cd. AllMembers cd.mapping.members)
          (build_composite_device range_combo sources comp combo)
  unfolding build_composite_device finish
  build-AllMembers range_combo sources comp combo h =
      IfReturns-bind (λ b'. AllMembers b'.members) _ (add_members sources combo comp.members _) _
        (add_members-AllMembers sources combo comp.members _ h tt)
        (λ b' a.
          IfReturns-bind (λ _. Unit) _ (promote_all comp.members combo comp.constraints b'.attrs) _
            (if_returns _) (λ attrs _. a))
    where
      if_returns : (r : Run Attributes) → IfReturns (λ _. Unit) r
      if_returns (returns a) = tt
      if_returns panics = tt

-- every member's source is configured
abbrev pub AllConfigured : GoMap SourceConfig → List MemberConfig → Type 0
AllConfigured sources = All (λ m. (src : SourceConfig) × (lookup m.source sources ≡ some src))

add_devices-Returns :
    (src : SourceConfig) (count : ℤ) (i : ℕ) (devs : List SourceDevice) (b : Built)
    → Returns (λ _. Unit) (add_devices (some src) count i devs b)
unfolding add_devices
add_devices-Returns src count i [] b = tt
add_devices-Returns src count i (dev ∷ devs) b =
    add_devices-Returns src count (suc i) devs (add_device src count i dev b)

add_members-Returns :
    (sources : GoMap SourceConfig) (combo : DeviceMap) (ms : List MemberConfig) (b : Built)
    → AllConfigured sources ms
    → Returns (λ _. Unit) (add_members sources combo ms b)
unfolding add_members
add_members-Returns sources combo [] b h = tt
add_members-Returns sources combo (m ∷ ms) b ((src, e), h) =
    Returns-bind (λ _. Unit) (λ _. Unit) (add_devices (lookup m.source sources) m.count 0 _ b) _
      (rw e (add_devices-Returns src m.count 0 (lookup_or [] m.source combo) b))
      (λ b' _. add_members-Returns sources combo ms b' h)

promote_all-Returns :
    (ms : List MemberConfig) (combo : DeviceMap) (cs : List ConstraintConfig) (attrs : Attributes)
    → ms ≢ []
    → Returns (λ _. Unit) (promote_all ms combo cs attrs)
unfolding promote_all
promote_all-Returns ms combo [] attrs h = tt
promote_all-Returns [] combo (c ∷ cs) attrs h = absurd (h refl)
promote_all-Returns (m ∷ ms) combo (c ∷ cs) attrs h = promote_all-Returns (m ∷ ms) combo cs _ h

-- With members whose sources are configured there is no panic; the name fits a Kubernetes name, and
-- the mapping carries the composition's name.
pub build-Returns :
    (range_combo : DeviceMap → DeviceMap) (sources : GoMap SourceConfig) (comp : CompositionConfig)
    (combo : DeviceMap)
    → comp.members ≢ []
    → AllConfigured sources comp.members
    → Returns
        (λ cd. (length cd.name ≤ 63) × (cd.mapping.composition_name ≡ comp.name))
        (build_composite_device range_combo sources comp combo)
unfolding build_composite_device finish
build-Returns range_combo sources comp combo some_member h =
    Returns-bind (λ _. Unit) _ (add_members sources combo comp.members _) _
      (add_members-Returns sources combo comp.members _ h)
      (λ b' _.
        Returns-bind (λ _. Unit) _ (promote_all comp.members combo comp.constraints b'.attrs) _
          (promote_all-Returns comp.members combo comp.constraints b'.attrs some_member)
          (λ attrs _. (length-truncate-le 63 _, refl)))
