-- ===== src/Shadow/Params/Matching.antt =====
-- What a matcher accepts, and which devices an entry matches.
use composite_dra_driver.Prelude.{
  ◌≡◌, ◌↔◌, ◌⊎◌, refl, arith, Bool, true, false, ◌||◌, ◌&&◌, [], ◌∷◌, ◌++◌, some, GoString,
  is_empty, has_prefix, str_eq_iff, GoMap, All, Bool-cases, Option-cases, inl, inr,
}
use composite_dra_driver.Resource.{Attributes}
use composite_dra_driver.Shadow.Params.{
  AttributeMatcher, get_attr_string, matches_text, matches_device,
}

has_prefix_iff : (s p : GoString) → (has_prefix s p ≡ true) ↔ ((rest : GoString) × (s ≡ p ++ rest))
unfolding has_prefix
has_prefix_iff s [] = (λ h. (s, refl), λ h. refl)
has_prefix_iff [] (b ∷ p) = (λ h. cc, λ h. cc)
has_prefix_iff (a ∷ s) (b ∷ p) = (
  λ h. (let (rest, e) = (has_prefix_iff s p).0 (ground arith) in (rest, ground arith)),
  λ h. (let q = (has_prefix_iff s p).1 (h.0, cc) in ground arith),
)

is_empty_iff : (s : GoString) → (is_empty s ≡ true) ↔ (s ≡ [])
is_empty_iff [] = (λ h. refl, λ h. refl)
is_empty_iff (c ∷ s) = (λ h. cc, λ h. cc)

-- The text begins with the prefix, and is the exact text, where these are given.
pub record IsAccepted (m : AttributeMatcher) (text : GoString) : Type 0 where
  pub begins : (m.prefix ≡ []) ⊎ ((rest : GoString) × (text ≡ m.prefix ++ rest))
  pub equals : (m.exact ≡ []) ⊎ (text ≡ m.exact)

or_iff : {A B : Type 0} (a b : Bool) → (a ≡ true) ↔ A → (b ≡ true) ↔ B → ((a || b) ≡ true) ↔ (A ⊎ B)
or_iff true b f g = (λ h. inl (f.0 refl), λ h. refl)
or_iff false b f g =
    (λ h. inr (g.0 h), λ h. elim h [ inl x ↦ (let q = f.1 x in cc) | inr y ↦ g.1 y ])

and_iff :
    {A B : Type 0} (a b : Bool) → (a ≡ true) ↔ A → (b ≡ true) ↔ B → ((a && b) ≡ true) ↔ (A × B)
and_iff true b f g = (λ h. (f.0 refl, g.0 h), λ h. g.1 h.1)
and_iff false b f g = (λ h. cc, λ h. f.1 h.0)

IsAccepted-iff :
    (m : AttributeMatcher) (text : GoString)
    → (matches_text m (some text) ≡ true) ↔ IsAccepted m text
unfolding matches_text
IsAccepted-iff m text =
    let e =
      and_iff _ _ (or_iff _ _ (is_empty_iff m.prefix) (has_prefix_iff text m.prefix))
        (or_iff _ _ (is_empty_iff m.exact) (str_eq_iff text m.exact)) in
    (λ h. record { begins = (e.0 h).0; equals = (e.0 h).1 }, λ a. e.1 (a.begins, a.equals))

-- the attribute has a text, which the matcher accepts
abbrev pub Accepts : Attributes → GoString × AttributeMatcher → Type 0
Accepts attrs (key, m) =
    (text : GoString) × (get_attr_string attrs key ≡ some text) × IsAccepted m text

one_matcher :
    (attrs : Attributes) (key : GoString) (m : AttributeMatcher)
    → (matches_text m (get_attr_string attrs key) ≡ true) ↔ Accepts attrs (key, m)
unfolding matches_text
one_matcher attrs key m = elim (Option-cases (get_attr_string attrs key)) [
  | inl e ↦ (λ h. (let q = rw e at h in cc), λ (text, same, a). cc)
  | inr (t, e) ↦ (
    λ h. (t, e, (IsAccepted-iff m t).0 (rw e at h)),
    λ (text, same, a). rw same ((IsAccepted-iff m text).1 a),
  )
]

-- An entry matches a device exactly when each of its matchers names an attribute that has a text,
-- which begins with the matcher's prefix and equals its exact text, where these are given.
pub matches_device-iff_Accepts :
    (matchers : GoMap AttributeMatcher) (attrs : Attributes)
    → (matches_device matchers attrs ≡ true) ↔ All (Accepts attrs) matchers
unfolding matches_device
matches_device-iff_Accepts [] attrs = (λ h. tt, λ h. refl)
matches_device-iff_Accepts ((key, m) ∷ matchers) attrs =
    let one = one_matcher attrs key m in
    let rest = matches_device-iff_Accepts matchers attrs in
    elim (Bool-cases (matches_text m (get_attr_string attrs key))) [
      | inl t ↦ rw (t, matches_device) ((λ h. (one.0 t, rest.0 h)), (λ h. rest.1 h.1))
      | inr f ↦ rw (f, matches_device) ((λ h. cc), (λ h. (let q = one.1 h.0 in cc)))
    ]
