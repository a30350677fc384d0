-- ===== src/Synthesizer/Build/Origin.antt =====
-- Each member of a composite device is a device that was chosen for the member's source.
use composite_dra_driver.Prelude.{
  ℕ, suc, ◌≡◌, sym, subst, List, [], ◌∷◌, none, some, ℤ, GoString, GoMap, lookup, lookup_or,
  All-lookup_or, All, All-append, Option-cases, inl, inr,
}
use composite_dra_driver.Prelude.Run.{IfReturns, IfReturns-bind, IfReturns-any}
use composite_dra_driver.Config.{SourceConfig, MemberConfig, CompositionConfig}
use composite_dra_driver.Store.{DeviceMember}
use composite_dra_driver.Synthesizer.Devices.{SourceDevice, DeviceMap}
use composite_dra_driver.Synthesizer.Build.{
  Built, add_device, add_devices, add_members, promote_all, finish, build_composite_device,
}

-- the sources stand under their names
abbrev pub AllNamed : GoMap SourceConfig → Type 0
AllNamed sources = (k : GoString) (src : SourceConfig) → lookup k sources ≡ some src → src.name ≡ k

module _ (P : GoString → GoString → Type 0) where
  -- of every source and every device that is chosen for it
  abbrev pub AllChosen : DeviceMap → Type 0
  AllChosen = All (λ (e : GoString × List SourceDevice). All (λ d. P e.0 d.device_name) e.1)

  abbrev pub AllOrigins : List DeviceMember → Type 0
  AllOrigins = All (λ m. P m.source_name m.device)

  add_devices-AllOrigins :
      (src : SourceConfig) (count : ℤ) (i : ℕ) (devs : List SourceDevice) (b : Built)
      → All (λ d. P src.name d.device_name) devs
      → AllOrigins b.members
      → IfReturns (λ b'. AllOrigins b'.members) (add_devices (some src) count i devs b)
  unfolding add_devices
  add_devices-AllOrigins src count i [] b h a = a
  add_devices-AllOrigins src count i (dev ∷ devs) b h a =
      add_devices-AllOrigins src count (suc i) devs (add_device src count i dev b) h.1
        (unfold add_device in All-append (λ m. P m.source_name m.device) b.members _ a (h.0, tt))

  no_source-AllOrigins :
      (count : ℤ) (devs : List SourceDevice) (b : Built)
      → AllOrigins b.members
      → IfReturns (λ b'. AllOrigins b'.members) (add_devices none count 0 devs b)
  unfolding add_devices
  no_source-AllOrigins count [] b a = a
  no_source-AllOrigins count (dev ∷ devs) b a = tt

  add_members-AllOrigins :
      (sources : GoMap SourceConfig) (combo : DeviceMap) (ms : List MemberConfig) (b : Built)
      → AllNamed sources
      → AllChosen combo
      → AllOrigins b.members
      → IfReturns (λ b'. AllOrigins b'.members) (add_members sources combo ms b)
  unfolding add_members
  add_members-AllOrigins sources combo [] b n h a = a
  add_members-AllOrigins sources combo (m ∷ ms) b n h a =
      let devs = lookup_or [] m.source combo in
      let chosen : All (λ d. P m.source d.device_name) devs =
        All-lookup_or (λ (e : GoString × List SourceDevice). All (λ d. P e.0 d.device_name) e.1) []
          m.source combo tt h in
      IfReturns-bind (λ b'. AllOrigins b'.members) (λ b'. AllOrigins b'.members)
        (add_devices (lookup m.source sources) m.count 0 devs b) _
        (elim (Option-cases (lookup m.source sources)) [
          | inl e ↦ rw e (no_source-AllOrigins m.count devs b a)
          | inr (src, e) ↦ rw e (
              add_devices-AllOrigins src m.count 0 devs b
                (subst (λ k. All (λ d. P k d.device_name) devs) (sym (n m.source src e)) chosen) a)
        ])
        (λ b' a'. add_members-AllOrigins sources combo ms b' n h a')

  pub build-AllOrigins :
      (range_combo : DeviceMap → DeviceMap) (sources : GoMap SourceConfig)
      (comp : CompositionConfig) (combo : DeviceMap)
      → AllNamed sources
      → AllChosen combo
      → IfReturns
          (λ cd. AllOrigins cd.mapping.members)
          (build_composite_device range_combo sources comp combo)
  unfolding build_composite_device finish
  build-AllOrigins range_combo sources comp combo n h =
      IfReturns-bind (λ b'. AllOrigins b'.members) _ (add_members sources combo comp.members _) _
        (add_members-AllOrigins sources combo comp.members _ n h tt)
        (λ b' a.
          IfReturns-bind (λ _. Unit) _ (promote_all comp.members combo comp.constraints b'.attrs) _
            (IfReturns-any _) (λ attrs _. a))
