-- ===== src/Plugin/Orphans/Collected.antt =====
-- What the reconciler leaves in a cluster whose requests do not fail.
use composite_dra_driver.Prelude.{
  ◌≡◌, ◌≢◌, ◌⊎◌, refl, sym, ap, subst, ◌∙◌, arith, Bool, true, false, not, ◌&&◌, ◌||◌, List, [],
  ◌∷◌, ◌++◌, map, Option, none, some, GoString, codes, is_empty, GoMap, Signal, ticked, done,
  on_ticks, str_eq, str_eq_iff, str_eq_refl, lookup_or, All, All-at, All-of_Elem, Elem, Elem-map,
  AllDistinct, Bool-cases, inl, inr, if◌then◌else◌,
}
use composite_dra_driver.Prelude.Result.{Result, ok, err}
use composite_dra_driver.Plugin.{ResourceClaim}
use composite_dra_driver.Shadow.Claims.{ShadowClaim, OwnerReference}
use composite_dra_driver.Plugin.Orphans.{
  owner_exists, is_orphan, orphans, of_listed, reconcile_orphans, start_reconciler,
}

-- one of the names is the claim's
is_deleted : ShadowClaim → List (GoString × GoString) → Bool
is_deleted c [] = false
is_deleted c ((namespace, name) ∷ names) =
    (str_eq c.namespace namespace && str_eq c.name name) || is_deleted c names

-- the cluster's claims once the ones of these names are deleted
unfoldable pub delete_named : List (GoString × GoString) → List ShadowClaim → List ShadowClaim
unfolding is_deleted
delete_named names [] = []
delete_named names (c ∷ cs) =
    let rest = delete_named names cs in if is_deleted c names then rest else c ∷ rest

-- a selector of one label, `key=value`
unfoldable pub selects : GoString → GoMap GoString → Bool
selects selector [] = false
selects selector ((k, v) ∷ labels) = str_eq (k ++ (b'=' ∷ v)) selector || selects selector labels

-- what the API server lists
unfoldable pub select : GoString → List ShadowClaim → List ShadowClaim
unfolding selects
select selector [] = []
select selector (c ∷ cs) =
    let rest = select selector cs in if selects selector c.labels then c ∷ rest else rest

-- the owner of the UID
unfoldable pub owner_of : GoString → List OwnerReference → Option OwnerReference
owner_of uid [] = none
owner_of uid (ref ∷ refs) = if str_eq ref.uid uid then some ref else owner_of uid refs

or-true : (a b : Bool) → b ≡ true → (a || b) ≡ true
or-true true b h = refl
or-true false b h = h

abbrev pub claim_key : ShadowClaim → GoString × GoString
claim_key c = (c.namespace, c.name)

-- no two claims have one namespace and name
abbrev pub AreNamed : List ShadowClaim → Type 0
AreNamed s = AllDistinct (map claim_key s)

module _ {E : Type 0} (get : GoString → GoString → Result E ResourceClaim) (driver : GoString) where
  abbrev selector : GoString
  selector = codes "app.kubernetes.io/managed-by=" ++ driver

  -- The claim stays: it has not the driver's label, or no UID of a composite claim, or the claim of
  -- its owner reference with this UID is there.
  unfoldable pub remains : ShadowClaim → Bool
  unfolding owner_of
  remains c =
      if selects (codes "app.kubernetes.io/managed-by=" ++ driver) c.labels
      then (let uid = lookup_or [] (codes "composite-claim-uid") c.labels in
          if is_empty uid then true else elim (owner_of uid c.owner_references) [
            | none ↦ false
            | some ref ↦ elim (get c.namespace ref.name) [ ok owner ↦ true | err e ↦ false ]
          ])
      else true

  unfoldable pub remaining : List ShadowClaim → List ShadowClaim
  unfolding remains
  remaining [] = []
  remaining (c ∷ cs) = let rest = remaining cs in if remains c then c ∷ rest else rest

  -- one reconciliation of the cluster
  unfoldable pub reconciled : List ShadowClaim → List ShadowClaim
  reconciled s = delete_named (reconcile_orphans get (λ selector. ok (select selector s)) driver) s

  abbrev orphaned : ShadowClaim → Bool
  orphaned c = is_orphan get c (lookup_or [] (codes "composite-claim-uid") c.labels)

  owner_exists-owner_of :
      (namespace uid : GoString) (refs : List OwnerReference)
      → owner_exists get namespace uid refs ≡ (elim (owner_of uid refs) [
        | none ↦ false
        | some ref ↦ elim (get namespace ref.name) [ ok owner ↦ true | err e ↦ false ]
      ])
  unfolding owner_exists owner_of
  owner_exists-owner_of namespace uid [] = refl
  owner_exists-owner_of namespace uid (ref ∷ refs) = elim (Bool-cases (str_eq ref.uid uid)) [
    | inl e ↦ rw (e, owner_exists, owner_of) refl
    | inr e ↦ rw (e, owner_exists, owner_of) (owner_exists-owner_of namespace uid refs)
  ]

  -- the reconciler's test, on a claim that is listed
  remains-listed :
      (c : ShadowClaim) → selects selector c.labels ≡ true → remains c ≡ not (orphaned c)
  unfolding remains is_orphan
  remains-listed c listed =
      let uid = lookup_or [] (codes "composite-claim-uid") c.labels in
      elim (Bool-cases (is_empty uid)) [
        | inl e ↦ rw (listed, e, is_orphan) refl
        | inr e ↦
            let same = owner_exists-owner_of c.namespace uid c.owner_references in
            rw (listed, e, is_orphan, same) (sym (twice _))
      ]
    where
      twice : (b : Bool) → not (elim b [ true ↦ false | false ↦ true ]) ≡ b
      twice true = refl
      twice false = refl

  remains-unlisted : (c : ShadowClaim) → selects selector c.labels ≡ false → remains c ≡ true
  unfolding remains
  remains-unlisted c other = rw other refl

  -- a listed orphan is deleted
  deleted-orphan :
      (c : ShadowClaim) (s : List ShadowClaim)
      → Elem c s
      → remains c ≡ false
      → is_deleted c (orphans get (select selector s)) ≡ true
  unfolding is_deleted orphans select
  deleted-orphan c [] h o = elim h [ ]
  deleted-orphan c (d ∷ s) (inl same) o =
      let gone_ : remains d ≡ false = rw same at o in
      elim (Bool-cases (selects selector d.labels)) [
        | inl listed ↦
            let orphan : orphaned d ≡ true =
              (let n : not (orphaned d) ≡ false = sym (remains-listed d listed) ∙ gone_ in
                ground arith) in
            rw (listed, select, orphan, orphans)
              (rw (same, is_deleted, str_eq_refl d.namespace, str_eq_refl d.name) refl)
        | inr other ↦
            let stays : remains d ≡ true = remains-unlisted d other in
            absurd (let q : true ≡ false = sym stays ∙ gone_ in cc)
      ]
  deleted-orphan c (d ∷ s) (inr later) o =
      let ih = deleted-orphan c s later o in
      elim (Bool-cases (selects selector d.labels)) [
        | inl listed ↦ elim (Bool-cases (orphaned d)) [
          | inl e ↦ rw (listed, select, e, orphans) (or-true _ _ ih)
          | inr e ↦ rw (listed, select, e, orphans) ih
        ]
        | inr other ↦ rw (other, select) ih
      ]

  -- another name, or the claim itself
  IsElse : ShadowClaim → ShadowClaim → Type 0
  IsElse c d = ((str_eq c.namespace d.namespace && str_eq c.name d.name) ≡ false) ⊎ (d ≡ c)

  kept-claim :
      (c : ShadowClaim) (s : List ShadowClaim)
      → All (IsElse c) s
      → remains c ≡ true
      → is_deleted c (orphans get (select selector s)) ≡ false
  unfolding is_deleted orphans select IsElse
  kept-claim c [] h o = refl
  kept-claim c (d ∷ s) (p, h) o =
      let ih = kept-claim c s h o in
      elim (Bool-cases (selects selector d.labels)) [
        | inl listed ↦ elim (Bool-cases (orphaned d)) [
          | inl e ↦
              rw (listed, select, e, orphans)
                (elim p [
                  | inl other ↦ rw other ih
                  | inr same ↦
                      let stays : remains d ≡ true = rw same o in
                      let orphan : remains d ≡ false = remains-listed d listed ∙ rw e refl in
                      absurd (let q : true ≡ false = sym stays ∙ orphan in cc)
                ])
          | inr e ↦ rw (listed, select, e, orphans) ih
        ]
        | inr other ↦ rw (other, select) ih
      ]

  delete_named-remaining :
      (names : List (GoString × GoString)) (s : List ShadowClaim)
      → All (λ c. is_deleted c names ≡ not (remains c)) s
      → delete_named names s ≡ remaining s
  unfolding delete_named remaining
  delete_named-remaining names [] h = refl
  delete_named-remaining names (c ∷ cs) (e, h) =
      let ih = delete_named-remaining names cs h in
      elim (Bool-cases (remains c)) [
        | inl r ↦ (let d : is_deleted c names ≡ false = e ∙ rw r refl in rw (d, r) (ap (◌∷◌ c) ih))
        | inr r ↦ (let d : is_deleted c names ≡ true = e ∙ rw r refl in rw (d, r) ih)
      ]

  differ :
      (a b : ShadowClaim)
      → claim_key a ≢ claim_key b
      → (str_eq a.namespace b.namespace && str_eq a.name b.name) ≡ false
  differ a b ne = elim (Bool-cases (str_eq a.namespace b.namespace && str_eq a.name b.name)) [
    | inl both ↦
        let at_ns : a.namespace ≡ b.namespace =
          ground (arith, str_eq_iff a.namespace b.namespace) in
        let at_name : a.name ≡ b.name = ground (arith, str_eq_iff a.name b.name) in
        absurd (ne (λ i. (at_ns i, at_name i)))
    | inr other ↦ other
  ]

  AllElse-map :
      (c : ShadowClaim) (s : List ShadowClaim)
      → All (λ y. claim_key c ≢ y) (map claim_key s)
      → All (IsElse c) s
  unfolding IsElse
  AllElse-map c [] h = tt
  AllElse-map c (d ∷ s) (ne, h) = (inl (differ c d ne), AllElse-map c s h)

  AreNamed-AllElse :
      (c : ShadowClaim) (s : List ShadowClaim) → AreNamed s → Elem c s → All (IsElse c) s
  unfolding IsElse
  AreNamed-AllElse c [] d h = elim h [ ]
  AreNamed-AllElse c (x ∷ s) (ne, d) (inl same) =
      (inr (sym same), subst (λ y. All (IsElse y) s) (sym same) (AllElse-map x s ne))
  AreNamed-AllElse c (x ∷ s) (ne, d) (inr later) =
      let away : claim_key x ≢ claim_key c =
        All-at (λ y. claim_key x ≢ y) (map claim_key s) ne (claim_key c)
          (Elem-map claim_key c s later) in
      (inl (differ c x (λ e. away (sym e))), AreNamed-AllElse c s d later)

  reconciled-remaining : (s : List ShadowClaim) → AreNamed s → reconciled s ≡ remaining s
  unfolding reconciled reconcile_orphans of_listed
  reconciled-remaining s d = delete_named-remaining (orphans get (select selector s)) s (
      All-of_Elem (λ c. is_deleted c (orphans get (select selector s)) ≡ not (remains c)) s
        λ c h. elim (Bool-cases (remains c)) [
          | inl r ↦ rw r (kept-claim c s (AreNamed-AllElse c s d h) r)
          | inr r ↦ rw r (deleted-orphan c s h r)
        ])

  remaining-AllRemain : (s : List ShadowClaim) → All (λ c. remains c ≡ true) (remaining s)
  unfolding remaining
  remaining-AllRemain [] = tt
  remaining-AllRemain (c ∷ s) = elim (Bool-cases (remains c)) [
    | inl r ↦ rw r (r, remaining-AllRemain s)
    | inr r ↦ rw r (remaining-AllRemain s)
  ]

  -- a cluster in which all claims remain stays as it is
  orphans-none :
      (s : List ShadowClaim) → All (λ c. remains c ≡ true) s → orphans get (select selector s) ≡ []
  unfolding orphans select
  orphans-none [] h = refl
  orphans-none (c ∷ s) (r, h) = elim (Bool-cases (selects selector c.labels)) [
    | inl listed ↦
        let no : orphaned c ≡ false =
          (let n : not (orphaned c) ≡ true = sym (remains-listed c listed) ∙ r in ground arith) in
        rw (listed, select, no, orphans) (orphans-none s h)
    | inr other ↦ rw (other, select) (orphans-none s h)
  ]

  delete_named-nil : (s : List ShadowClaim) → delete_named [] s ≡ s
  unfolding delete_named is_deleted
  delete_named-nil [] = refl
  delete_named-nil (c ∷ s) = ap (◌∷◌ c) (delete_named-nil s)

  start_reconciler-same :
      (signals : List Signal) (s : List ShadowClaim)
      → All (λ c. remains c ≡ true) s
      → start_reconciler reconciled signals s ≡ s
  unfolding start_reconciler on_ticks reconciled reconcile_orphans of_listed
  start_reconciler-same [] s h = refl
  start_reconciler-same (done ∷ signals) s h = refl
  start_reconciler-same (ticked ∷ signals) s h =
      let same : delete_named (orphans get (select selector s)) s ≡ s =
        ap (λ names. delete_named names s) (orphans-none s h) ∙ delete_named-nil s in
      ap (start_reconciler reconciled signals) same ∙ start_reconciler-same signals s h

  -- In a cluster whose claims have different names, whose requests do not fail and whose composite
  -- claims stay, from the first tick on, for any further ticks, the claims are exactly those that
  -- remain, as they were: those without the driver's label or the UID of a composite claim, and
  -- those whose composite claim, by the first owner reference with this UID, is returned by `Get`,
  -- allocated or not.
  pub start_reconciler_lem :
      (signals : List Signal) (s : List ShadowClaim)
      → AreNamed s
      → start_reconciler reconciled (ticked ∷ signals) s ≡ remaining s
  unfolding start_reconciler on_ticks
  start_reconciler_lem signals s d =
      ap (start_reconciler reconciled signals) (reconciled-remaining s d)
      ∙ start_reconciler-same signals (remaining s) (remaining-AllRemain s)
