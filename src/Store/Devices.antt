-- ===== src/Store/Devices.antt =====
-- pkg/store/device_store.go. Each method holds the mutex throughout, so calls happen one after the
-- other: a method is a function of the store. `List` returns a copy, which is the same value here.
use composite_dra_driver.Prelude.{
  ℕ, ◌≡◌, ◌≢◌, refl, [], ◌∷◌, ◌++◌, Option, none, some, GoString, codes, str_eq, str_eq_iff, GoMap,
  lookup, insert, delete, lookup-insert, lookup-delete, length, and-true, sym, ◌∙◌, All, All-right,
  str_eq_refl, ◌&&◌, if◌then◌else◌, Bool-cases, inl, inr,
}
use composite_dra_driver.Store.{DeviceMapping}

pub record DeviceStore : Type 0 where
  pub devices : GoMap DeviceMapping

pub new_device_store : DeviceStore
new_device_store = record { devices = [] }

unfoldable pub key : GoString → GoString → GoString
key pool device = pool ++ (codes "/" ++ device)

unfoldable pub put : GoString → GoString → DeviceMapping → DeviceStore → DeviceStore
put pool device mapping s = record { devices = insert (key pool device) mapping s.devices }

unfoldable pub get : GoString → GoString → DeviceStore → Option DeviceMapping
get pool device s = lookup (key pool device) s.devices

unfoldable pub remove : GoString → GoString → DeviceStore → DeviceStore
remove pool device s = record { devices = delete (key pool device) s.devices }

unfoldable pub replace_all : GoMap DeviceMapping → DeviceStore → DeviceStore
replace_all mappings s = record { devices = mappings }

pub len : DeviceStore → ℕ
len s = length s.devices

pub list : DeviceStore → GoMap DeviceMapping
list s = s.devices

-- no byte of the text is a slash
abbrev pub HasNoSlash : GoString → Type 0
HasNoSlash = All (λ c. c ≢ b'/')

not_split : (x p d : GoString) → HasNoSlash x → x ≢ p ++ b'/' ∷ d
not_split x p d h e = (All-right (λ (c : ℕ). c ≢ b'/') p (b'/' ∷ d) (rw e at h)).0 refl

-- Where the device names have no slash, equal keys have equal pools and devices.
split_inj :
    (p p' d d' : GoString)
    → HasNoSlash d
    → HasNoSlash d'
    → p ++ b'/' ∷ d ≡ p' ++ b'/' ∷ d'
    → (p ≡ p') × (d ≡ d')
split_inj [] [] d d' h h' e = (refl, cc)
split_inj [] (c ∷ p') d d' h h' e = absurd (not_split d p' d' h (cc))
split_inj (c ∷ p) [] d d' h h' e = absurd (not_split d' p d h' (cc))
split_inj (c ∷ p) (c' ∷ p') d d' h h' e = let r = split_inj p p' d d' h h' (cc) in (cc (r.0), r.1)

pub key_inj :
    (p p' d d' : GoString)
    → HasNoSlash d
    → HasNoSlash d'
    → key p d ≡ key p' d'
    → (p ≡ p') × (d ≡ d')
unfolding key codes
key_inj p p' d d' h h' e = split_inj p p' d d' h h' e

same_key :
    (p p' d d' : GoString)
    → HasNoSlash d
    → HasNoSlash d'
    → str_eq (key p d) (key p' d') ≡ (str_eq p p' && str_eq d d')
same_key p p' d d' h h' = elim (Bool-cases (str_eq (key p d) (key p' d'))) [
  | inl e ↦
      let r = key_inj p p' d d' h h' ((str_eq_iff _ _).0 e) in
      rw (e, r.0, r.1, str_eq_refl p', str_eq_refl d')
  | inr e ↦ elim (Bool-cases (str_eq p p' && str_eq d d')) [
    | inl t ↦
        (let (a, b) = and-true (str_eq p p') (str_eq d d') t in
          let q = str_eq_refl (key p' d') in
          let r = rw ((str_eq_iff p p').0 a, (str_eq_iff d d').0 b) at e in cc)
    | inr f ↦ e ∙ sym f
  ]
]

module _ (p p' d d' : GoString) (m : DeviceMapping) (s : DeviceStore) (h : HasNoSlash d)
    (h' : HasNoSlash d') where
  -- For device names without a slash, `Put` and `Delete` change what `Get` returns for their own
  -- pool and device, and for no other pair.
  pub get-put-remove :
      (get p' d' (put p d m s) ≡ (if str_eq p p' && str_eq d d' then some m else get p' d' s))
      × (get p' d' (remove p d s) ≡ (if str_eq p p' && str_eq d d' then none else get p' d' s))
  unfolding get put remove
  get-put-remove = rw (← same_key p p' d d' h h') (
    lookup-insert (key p d) (key p' d') m s.devices,
    lookup-delete (key p d) (key p' d') s.devices,
  )
