-- ===== src/Prelude/Path.antt =====
-- `strings.Join` and, of package path/filepath on Unix, `Join` and `Clean`.
use Prim.Native.Nat.{ℕ}
use mathlib.Core.Path.{◌≡◌, refl, ap, sym, ◌∙◌}
use mathlib.Core.Logic.{◌≢◌, inl, inr}
use mathlib.Core.Bool.{Bool, true, false, ◌||◌}
use mathlib.Core.List.{List, [], ◌∷◌, ◌++◌, reverse, append_assoc, reverse-append}
use native.Mathlib.Omega.{arith}
use composite_dra_driver.Prelude.Tests.{◌==◌, if◌then◌else◌, Bool-cases}
use composite_dra_driver.Prelude.Lists.{All}
use composite_dra_driver.Prelude.Text.{GoString, codes, str_eq, is_empty}

-- `strings.Join(parts, sep)`
unfoldable pub join : GoString → List GoString → GoString
join sep [] = []
join sep (part ∷ []) = part
join sep (part ∷ next ∷ parts) = part ++ (sep ++ join sep (next ∷ parts))

-- a byte before the first element of a split text
add_byte : Bool → ℕ → List GoString → List GoString
add_byte true c parts = [] ∷ parts
add_byte false c [] = []
add_byte false c (part ∷ parts) = (c ∷ part) ∷ parts

-- the elements of a path, which slashes separate
unfoldable pub split_slash : GoString → List GoString
unfolding add_byte
split_slash [] = [] ∷ []
split_slash (c ∷ s) = add_byte (c == b'/') c (split_slash s)

-- the elements that `Clean` keeps, the last one first
step_back : Bool → List GoString → List GoString
step_back true [] = []
step_back false [] = codes ".." ∷ []
step_back rooted (top ∷ kept) = if str_eq top (codes "..") then codes ".." ∷ top ∷ kept else kept

unfoldable pub keep : Bool → List GoString → List GoString → List GoString
unfolding step_back
keep rooted kept [] = kept
keep rooted kept (part ∷ parts) =
    if is_empty part || str_eq part (codes ".")
    then keep rooted kept parts
    else if str_eq part (codes "..")
    then keep rooted (step_back rooted kept) parts
    else keep rooted (part ∷ kept) parts

unfoldable pub is_rooted : GoString → Bool
is_rooted [] = false
is_rooted (c ∷ s) = c == b'/'

dot_if_empty : GoString → GoString
dot_if_empty [] = codes "."
dot_if_empty (c ∷ s) = c ∷ s

-- `filepath.Clean(path)`
unfoldable pub clean : GoString → GoString
unfolding keep is_rooted dot_if_empty
clean path =
    let parts = join (codes "/") (reverse (keep (is_rooted path) [] (split_slash path))) in
    if is_rooted path then b'/' ∷ parts else dot_if_empty parts

-- `filepath.Join(parts...)`
unfoldable pub join_path : List GoString → GoString
unfolding clean
join_path [] = []
join_path (part ∷ parts) =
    if is_empty part then join_path parts else clean (join (codes "/") (part ∷ parts))

-- a name that is one element of a path
pub record IsElement (s : GoString) : Type 0 where
  pub has_text : is_empty s ≡ false
  pub one : All (λ c. c ≢ b'/') s
  pub here : str_eq s (codes ".") ≡ false
  pub up : str_eq s (codes "..") ≡ false

split_slash-cons :
    (s : GoString) → (part : GoString) × (parts : List GoString) × (split_slash s ≡ part ∷ parts)
unfolding split_slash add_byte
split_slash-cons [] = ([], [], refl)
split_slash-cons (c ∷ s) =
    let (part, parts, e) = split_slash-cons s in
    elim (Bool-cases (c == b'/')) [
      | inl slash ↦ ([], part ∷ parts, rw (slash, e) refl)
      | inr other ↦ (c ∷ part, parts, rw (other, e) refl)
    ]

pub split-append : (s t : GoString) → split_slash (s ++ b'/' ∷ t) ≡ split_slash s ++ split_slash t
unfolding split_slash add_byte
split-append [] t = refl
split-append (c ∷ s) t =
    let (part, parts, e) = split_slash-cons s in
    rw (split-append s t, e)
      (elim (Bool-cases (c == b'/')) [ inl slash ↦ rw slash refl | inr other ↦ rw other refl ])

pub split-element : (s : GoString) → All (λ c. c ≢ b'/') s → split_slash s ≡ s ∷ []
unfolding split_slash add_byte
split-element [] h = refl
split-element (c ∷ s) (ne, h) =
    let no_slash : (c == b'/') ≡ false = ground arith in rw (split-element s h, no_slash) refl

keep-append :
    (r : Bool) (kept xs ys : List GoString) → keep r kept (xs ++ ys) ≡ keep r (keep r kept xs) ys
unfolding keep
keep-append r kept [] ys = refl
keep-append r kept (x ∷ xs) ys = elim (Bool-cases (is_empty x || str_eq x (codes "."))) [
  | inl e ↦ rw e (keep-append r kept xs ys)
  | inr e ↦ elim (Bool-cases (str_eq x (codes ".."))) [
    | inl d ↦ rw (e, d) (keep-append r (step_back r kept) xs ys)
    | inr d ↦ rw (e, d) (keep-append r (x ∷ kept) xs ys)
  ]
]

keep-element :
    (r : Bool) (kept : List GoString) (s : GoString) → IsElement s → keep r kept (s ∷ []) ≡ s ∷ kept
unfolding keep
keep-element r kept s h = rw (h.has_text, h.here, h.up) refl

join-snoc :
    (sep : GoString) (x : GoString) (xs : List GoString) (y : GoString)
    → join sep ((x ∷ xs) ++ y ∷ []) ≡ join sep (x ∷ xs) ++ (sep ++ y)
unfolding join
join-snoc sep x [] y = refl
join-snoc sep x (z ∷ zs) y = rw (join-snoc sep z zs y) (
    sym (
      append_assoc x (sep ++ join sep (z ∷ zs)) (sep ++ y)
      ∙ ap (◌++◌ x) (append_assoc sep (join sep (z ∷ zs)) (sep ++ y))))

join-snoc_snoc :
    (sep : GoString) (xs : List GoString) (z y : GoString)
    → join sep ((xs ++ z ∷ []) ++ y ∷ []) ≡ join sep (xs ++ z ∷ []) ++ (sep ++ y)
unfolding join
join-snoc_snoc sep [] z y = refl
join-snoc_snoc sep (x ∷ xs) z y = join-snoc sep x (xs ++ z ∷ []) y

-- the elements of a clean path, the last one first
unfoldable pub elements : GoString → List GoString
unfolding keep
elements path = keep true [] (split_slash path)

clean-rooted :
    (path : GoString)
    → is_rooted path ≡ true
    → clean path ≡ b'/' ∷ join (codes "/") (reverse (elements path))
unfolding clean elements
clean-rooted path r = rw r refl

pub is_rooted-append : (s t : GoString) → is_rooted s ≡ true → is_rooted (s ++ t) ≡ true
unfolding is_rooted
is_rooted-append [] t h = cc
is_rooted-append (c ∷ s) t h = h

pub elements-append :
    (dir s : GoString) → IsElement s → elements (dir ++ b'/' ∷ s) ≡ s ∷ elements dir
unfolding elements
elements-append dir s h =
    rw (split-append dir s, split-element s h.one, keep-append true [] (split_slash dir) (s ∷ []))
      (keep-element true (elements dir) s h)

-- An element below a directory other than the root stands after the directory's path.
pub clean-element :
    (dir s top : GoString) (kept : List GoString)
    → is_rooted dir ≡ true
    → elements dir ≡ top ∷ kept
    → IsElement s
    → clean (dir ++ b'/' ∷ s) ≡ clean dir ++ b'/' ∷ s
unfolding codes
clean-element dir s top kept r e h =
    rw
      (
        clean-rooted (dir ++ b'/' ∷ s) (is_rooted-append dir (b'/' ∷ s) r),
        clean-rooted dir r,
        elements-append dir s h,
        e,
        reverse-append (s ∷ []) (top ∷ kept),
        reverse-append (top ∷ []) kept,
      )
      (ap (◌∷◌ b'/') (join-snoc_snoc (codes "/") (reverse kept) top s))
