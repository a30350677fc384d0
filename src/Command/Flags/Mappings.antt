-- ===== src/Command/Flags/Mappings.antt =====
-- Which texts the flag accepts, and what `String` prints.
use composite_dra_driver.Prelude.{
  ◌≡◌, ◌≢◌, ◌↔◌, ◌⊎◌, refl, sym, ap, ◌∙◌, arith, false, List, [], ◌∷◌, ◌++◌, GoString, codes,
  is_empty, str_eq, str_eq_iff, GoMap, insert, keys, insert-AllDistinct, All, All-mono, All-insert,
  AllDistinct, ◌==◌, Bool-cases, inl, inr, append_assoc, append-nil,
}
use composite_dra_driver.Prelude.Result.{ok, err, ok_parts}
use composite_dra_driver.Command.Flags.{
  invalid_mapping, before_first, split_n, set_parts, set, parts_of, set_all, or_default,
  with_defaults,
}

-- a name and a class, neither empty, the name without '='
pub record IsMapping (x : GoString × GoString) : Type 0 where
  pub no_equals : All (λ c. c ≢ b'=') x.0
  pub named : is_empty x.0 ≡ false
  pub classed : is_empty x.1 ≡ false

pub split_n-entry :
    (k v : GoString) → All (λ c. c ≢ b'=') k → split_n (k ++ (b'=' ∷ v)) ≡ k ∷ v ∷ []
unfolding split_n before_first
split_n-entry [] v h = refl
split_n-entry (c ∷ k) v (ne, h) =
    let other : (c == b'=') ≡ false = ground arith in rw (other, split_n-entry k v h) refl

-- A text without '=' is one part, and any other is split at the first one.
IsSplit : GoString → List GoString → Type 0
IsSplit s parts =
    (parts ≡ s ∷ [])
    ⊎ ((k : GoString) × (v : GoString) × All (λ c. c ≢ b'=') k
        × (parts ≡ k ∷ v ∷ [])
        × (s ≡ k ++ (b'=' ∷ v)))

split_n-IsSplit : (s : GoString) → IsSplit s (split_n s)
unfolding IsSplit split_n before_first
split_n-IsSplit [] = inl refl
split_n-IsSplit (c ∷ s) = elim (Bool-cases (c == b'=')) [
  | inl e ↦ inr ([], s, tt, rw e refl, ground arith)
  | inr e ↦ elim (split_n-IsSplit s) [
    | inl whole ↦ inl (rw (e, whole) refl)
    | inr (k, v, no_eq, parts, joined) ↦
        let ne : c ≢ b'=' = λ q. ground arith in
        inr (c ∷ k, v, (ne, no_eq), rw (e, parts) refl, ap (◌∷◌ c) joined)
  ]
]

-- what the checks on two parts leave
checked :
    (val k v : GoString) (f f' : GoMap GoString)
    → set_parts val (k ∷ v ∷ []) f ≡ ok f'
    → (is_empty k ≡ false) × (is_empty v ≡ false) × (f' ≡ insert k v f)
unfolding set_parts
checked val [] v f f' h = cc
checked val (a ∷ k) [] f f' h = cc
checked val (a ∷ k) (b ∷ v) f f' h = (refl, refl, cc)

-- `Set` accepts a text exactly when it is a nonempty name without '=', then '=' and a nonempty class,
-- and then maps the name to the class.
pub set_iff :
    (val : GoString) (f f' : GoMap GoString)
    → (set val f ≡ ok f') ↔ (
        (k : GoString) × (v : GoString) × IsMapping (k, v)
        × (val ≡ k ++ (b'=' ∷ v))
        × (f' ≡ insert k v f))
unfolding set set_parts IsSplit
set_iff val f f' = (
  λ h. elim (split_n-IsSplit val) [
    | inl whole ↦
        absurd (let q : err (invalid_mapping val) ≡ ok f' = rw (whole, set_parts) at h in cc)
    | inr (k, v, no_eq, parts, joined) ↦
        let (named, classed, e) = checked val k v f f' (rw parts at h) in
        (k, v, record { no_equals = no_eq; named = named; classed = classed }, joined, e)
  ],
  λ (k, v, m, joined, e).
      rw (joined, split_n-entry k v m.no_equals) (rw (m.named, m.classed, e) refl),
)

set-entry :
    (k v : GoString) (f : GoMap GoString)
    → IsMapping (k, v)
    → set (k ++ (b'=' ∷ v)) f ≡ ok (insert k v f)
set-entry k v f h = (set_iff (k ++ (b'=' ∷ v)) f (insert k v f)).1 (k, v, h, refl, refl)

set_all-Mappings :
    (vals : List GoString) (f f' : GoMap GoString)
    → set_all vals f ≡ ok f'
    → All IsMapping f
    → AllDistinct (keys f)
    → All IsMapping f' × AllDistinct (keys f')
unfolding set_all
set_all-Mappings [] f f' h a d =
    let both : All IsMapping f × AllDistinct (keys f) = (a, d) in
    let e : f ≡ f' = cc in rw e at both
set_all-Mappings (val ∷ vals) f f' h a d =
    let (g, now, later) = ok_parts (set val f) (λ g. set_all vals g) h in
    let (k, v, m, joined, e) = (set_iff val f g).0 now in
    set_all-Mappings vals g f' later (rw e (All-insert IsMapping k v f m a))
      (rw e (insert-AllDistinct k v f d))

-- a new key comes last
insert-last :
    (k v : GoString) (f : GoMap GoString)
    → All (λ j. j ≢ k) (keys f)
    → insert k v f ≡ f ++ (k, v) ∷ []
unfolding insert
insert-last k v [] h = refl
insert-last k v ((j, w) ∷ f) (ne, h) = elim (Bool-cases (str_eq j k)) [
  | inl e ↦ absurd (ne ((str_eq_iff j k).0 e))
  | inr e ↦ rw e (ap (◌∷◌ (j, w)) (insert-last k v f h))
]

key_at :
    (P : GoString → Type 0) (f g : GoMap GoString) (k v : GoString)
    → All P (keys (f ++ (k, v) ∷ g))
    → P k
key_at P [] g k v h = h.0
key_at P ((j, w) ∷ f) g k v h = key_at P f g k v h.1

keys_fresh :
    (f g : GoMap GoString) (k v : GoString)
    → AllDistinct (keys (f ++ (k, v) ∷ g))
    → All (λ j. j ≢ k) (keys f)
keys_fresh [] g k v h = tt
keys_fresh ((j, w) ∷ f) g k v (ne, h) = (key_at (λ y. j ≢ y) f g k v ne, keys_fresh f g k v h)

set_all-parts_of :
    (g f : GoMap GoString)
    → All IsMapping g
    → AllDistinct (keys (f ++ g))
    → set_all (parts_of g) f ≡ ok (f ++ g)
unfolding set_all parts_of
set_all-parts_of [] f a d = ap ok (sym (append-nil f))
set_all-parts_of ((k, v) ∷ g) f (m, a) d = rw (set-entry k v f m) (
    rw (insert-last k v f (keys_fresh f g k v d)) (
      set_all-parts_of g (f ++ (k, v) ∷ []) a (rw (append_assoc f ((k, v) ∷ []) g) d)
      ∙ ap ok (append_assoc f ((k, v) ∷ []) g)))

-- The parts that `String` prints, given to the flag again, make the same mappings, whatever uses of
-- the flag made them.
pub set_all-parts :
    (vals : List GoString) (f : GoMap GoString)
    → set_all vals [] ≡ ok f
    → set_all (parts_of f) [] ≡ ok f
set_all-parts vals f h =
    let (a, d) = set_all-Mappings vals [] f h tt tt in set_all-parts_of f [] a d

or_default-text :
    (default s : GoString) → is_empty default ≡ false → is_empty (or_default default s) ≡ false
unfolding or_default
or_default-text default [] h = h
or_default-text default (c ∷ s) h = refl

-- The webhook that starts serves at least one mapping, each from a nonempty name to a nonempty class,
-- whether they come from the flag, from the deprecated flags or from the defaults.
pub with_defaults_lem :
    (vals : List GoString) (f : GoMap GoString) (device_class resource_name : GoString)
    → set_all vals [] ≡ ok f
    → (with_defaults device_class resource_name f ≢ [])
      × All
          (λ (x : GoString × GoString). (is_empty x.0 ≡ false) × (is_empty x.1 ≡ false))
          (with_defaults device_class resource_name f)
unfolding with_defaults or_default insert codes
with_defaults_lem vals [] device_class resource_name h = (
  (λ e. cc),
  (
    (
      or_default-text (codes "composite.dra/gpu-nic-pair") resource_name refl,
      or_default-text (codes "composite-gpu-nic") device_class refl,
    ),
    tt,
  ),
)
with_defaults_lem vals ((k, v) ∷ f) device_class resource_name h =
    let (a, d) = set_all-Mappings vals [] ((k, v) ∷ f) h tt tt in
    (λ e. cc, All-mono ((k, v) ∷ f) (λ x m. (m.named, m.classed)) a)
