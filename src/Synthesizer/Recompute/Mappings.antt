-- ===== src/Synthesizer/Recompute/Mappings.antt =====
-- The store that a recomputation leaves knows the composite devices that it publishes.
use composite_dra_driver.Prelude.{
  ◌≡◌, ◌≢◌, refl, sym, ap, subst, ◌∙◌, ◌⊎◌, inl, inr, arith, List, [], ◌∷◌, ◌++◌, some, GoString,
  GoMap, lookup, insert, lookup-insert, lookup-insert_self, str_eq_iff, All,
}
use composite_dra_driver.Prelude.Run.{IfReturns-at, returns, >>=-eq-returns}
use composite_dra_driver.Prelude.Result.{Result}
use composite_dra_driver.Config.{CompositeConfig}
use composite_dra_driver.Store.{DeviceMapping}
use composite_dra_driver.Store.Devices.{DeviceStore, HasNoSlash, key, key_inj, get, replace_all}
use composite_dra_driver.Synthesizer.Devices.{CompositeDevice}
use composite_dra_driver.Synthesizer.Pairer.{RangeOrders, Pairer, compute_pairs}
use composite_dra_driver.Synthesizer.Pairer.Names.{compute_pairs-HasNoSlash}
use composite_dra_driver.Synthesizer.Publisher.{pool_name}
use composite_dra_driver.Synthesizer.Publisher.Pools.{pool_name_inj}
use composite_dra_driver.Synthesizer.Watcher.{Watcher, ResourceSlice, get_source_devices}
use composite_dra_driver.Synthesizer.Recompute.{new_mappings, recompute, source_drivers}

-- two devices of one composition have two names
abbrev pub IsApart : CompositeDevice → CompositeDevice → Type 0
IsApart a b = (a.mapping.composition_name ≢ b.mapping.composition_name) ⊎ (a.name ≢ b.name)

module _ (driver node : GoString) where
  abbrev pub pool_of_device : CompositeDevice → GoString
  pool_of_device cd = pool_name driver node cd.mapping.composition_name

  abbrev pub key_of : CompositeDevice → GoString
  key_of cd = key (pool_of_device cd) cd.name

  key_of-ne :
      (a b : CompositeDevice)
      → HasNoSlash a.name
      → HasNoSlash b.name
      → IsApart a b
      → key_of a ≢ key_of b
  key_of-ne a b ha hb (inl ne) e =
      ne (pool_name_inj driver node _ _ (key_inj _ _ a.name b.name ha hb e).0)
  key_of-ne a b ha hb (inr ne) e = ne (key_inj _ _ a.name b.name ha hb e).1

  lookup-new_mappings_other :
      (k : GoString) (cds : List CompositeDevice) (m : GoMap DeviceMapping)
      → All (λ cd. k ≢ key_of cd) cds
      → lookup k (new_mappings driver node cds m) ≡ lookup k m
  unfolding new_mappings
  lookup-new_mappings_other k [] m h = refl
  lookup-new_mappings_other k (cd ∷ cds) m (ne, h) =
      lookup-new_mappings_other k cds (insert (key_of cd) cd.mapping m) h
      ∙ lookup-insert (key_of cd) k cd.mapping m
      ∙ ground (arith, str_eq_iff (key_of cd) k)

  AllOther :
      (a : CompositeDevice) (bs : List CompositeDevice)
      → HasNoSlash a.name
      → All (λ cd. HasNoSlash cd.name) bs
      → All (IsApart a) bs
      → All (λ b. key_of a ≢ key_of b) bs
  AllOther a [] s ss p = tt
  AllOther a (b ∷ bs) s (t, ss) (p, ps) = (key_of-ne a b s t p, AllOther a bs s ss ps)

  -- of the devices of one key the last one is stored
  lookup-new_mappings :
      (pre post : List CompositeDevice) (cd : CompositeDevice) (m : GoMap DeviceMapping)
      → All (λ cd. HasNoSlash cd.name) (pre ++ cd ∷ post)
      → All (IsApart cd) post
      → lookup (key_of cd) (new_mappings driver node (pre ++ cd ∷ post) m) ≡ some cd.mapping
  unfolding new_mappings
  lookup-new_mappings [] post cd m (s, ss) apart =
      lookup-new_mappings_other (key_of cd) post (insert (key_of cd) cd.mapping m)
        (AllOther cd post s ss apart)
      ∙ lookup-insert_self (key_of cd) cd.mapping m
  lookup-new_mappings (a ∷ pre) post cd m (s, ss) apart =
      lookup-new_mappings pre post cd (insert (key_of a) a.mapping m) ss apart

module _ {ℓ} {E : Type ℓ} (visit : RangeOrders) (cfg : CompositeConfig) (node : GoString)
    (p : Pairer) (w : Watcher) (slices : Result E (List ResourceSlice)) (before after : DeviceStore)
    (pre post : List CompositeDevice) (cd : CompositeDevice) where
  -- After a recomputation that returns, `Get` finds a published composite device under its pool and
  -- name, with its own mapping, if no device that is published after it has its composition and its
  -- name; so each device whose name is its own in its composition is found, and of several of one
  -- name the last one.
  pub recompute-get :
      recompute visit cfg node p w slices before ≡ returns (after, pre ++ cd ∷ post)
      → All (IsApart cd) post
      → get (pool_name cfg.driver.name node cd.mapping.composition_name) cd.name after
        ≡ some cd.mapping
  unfolding recompute get replace_all
  recompute-get e apart =
      let cds = pre ++ cd ∷ post in
      let pairs =
        compute_pairs visit p (get_source_devices w slices (source_drivers cfg.sources [])) in
      let (cds', e', r) = >>=-eq-returns pairs _ e in
      let both : ◌≡◌ {A = DeviceStore × List CompositeDevice}
          (record { devices = new_mappings cfg.driver.name node cds' [] }, cds') (after, cds) =
        cc in
      let slashless : All (λ cd. HasNoSlash cd.name) cds =
        subst (All (λ cd. HasNoSlash cd.name)) (ap (λ x. x.1) both) (
          IfReturns-at (All (λ cd. HasNoSlash cd.name)) pairs cds'
            (compute_pairs-HasNoSlash visit p
              (get_source_devices w slices (source_drivers cfg.sources [])))
            e') in
      let same : cds' ≡ cds = ap (λ x. x.1) both in
      let stored : new_mappings cfg.driver.name node cds [] ≡ after.devices =
        ap (λ x. new_mappings cfg.driver.name node x []) (sym same) ∙ ap (λ x. x.0.devices) both in
      subst (λ m. lookup (key_of cfg.driver.name node cd) m ≡ some cd.mapping) stored
        (lookup-new_mappings cfg.driver.name node pre post cd [] slashless apart)
