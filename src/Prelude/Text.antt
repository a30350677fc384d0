-- ===== src/Prelude/Text.antt =====
-- A Go string is its sequence of bytes.
use Prim.Native.Nat.{◌/◌, ◌%◌, ◌*◌, ◌<◌, ℕ, zero, suc, ◌+◌, ◌-◌, ◌≤◌}
use Prim.Native.Char.{code}
use Prim.Native.String.{String}
use mathlib.Core.Path.{◌≡◌, refl, ap, sym, ◌∙◌}
use mathlib.Core.Logic.{◌↔◌, ◌≢◌, inl, inr}
use mathlib.Core.Bool.{Bool, true, false, ◌&&◌, ◌||◌}
use mathlib.Core.List.{List, [], ◌∷◌, ◌++◌, reverse}
use native.Mathlib.Omega.{arith}
use composite_dra_driver.Prelude.Tests.{ltb, ◌==◌, if◌then◌else◌, Bool-cases}
use composite_dra_driver.Prelude.Lists.{length, take, length-take, All, All-append}

abbrev pub GoString : Type 0
GoString = List ℕ

-- The bytes of a literal, whose characters are all ASCII.
unfoldable pub codes : String → GoString
codes String.[] = []
codes (String.◌∷◌ c s) = code c ∷ codes s

unfoldable pub str_eq : GoString → GoString → Bool
str_eq [] [] = true
str_eq (a ∷ s) (b ∷ t) = a == b && str_eq s t
str_eq [] (b ∷ t) = false
str_eq (a ∷ s) [] = false

pub str_eq→eq : (s t : GoString) → str_eq s t ≡ true → s ≡ t
unfolding str_eq
str_eq→eq [] [] h = refl
str_eq→eq (a ∷ s) (b ∷ t) h = ground (arith, str_eq→eq s t)
str_eq→eq [] (b ∷ t) h = cc
str_eq→eq (a ∷ s) [] h = cc

pub str_eq_refl : (s : GoString) → str_eq s s ≡ true
unfolding str_eq
str_eq_refl [] = refl
str_eq_refl (a ∷ s) = ground (arith, str_eq_refl s)

pub str_eq_iff : (s t : GoString) → (str_eq s t ≡ true) ↔ (s ≡ t)
str_eq_iff s t = (str_eq→eq s t, λ e. rw e (str_eq_refl t))

pub str_eq-ne : (s t : GoString) → str_eq s t ≡ false → s ≢ t
str_eq-ne s t h e = ground (arith, str_eq_iff s t)

abbrev pub is_empty : GoString → Bool
is_empty [] = true
is_empty (a ∷ s) = false

-- `strings.HasPrefix(s, p)`
unfoldable pub has_prefix : GoString → GoString → Bool
has_prefix s [] = true
has_prefix (a ∷ s) (b ∷ p) = a == b && has_prefix s p
has_prefix [] (b ∷ p) = false

-- `s < t`, byte by byte
unfoldable pub str_lt : GoString → GoString → Bool
str_lt [] [] = false
str_lt [] (b ∷ t) = true
str_lt (a ∷ s) [] = false
str_lt (a ∷ s) (b ∷ t) = ltb a b || (a == b && str_lt s t)

-- `if len(name) > limit { name = name[:limit] }`
unfoldable pub truncate : ℕ → GoString → GoString
truncate limit name = if ltb limit (length name) then take limit name else name

pub length-truncate-le : (limit : ℕ) (name : GoString) → length (truncate limit name) ≤ limit
unfolding truncate
length-truncate-le limit name = ground (arith, length-take limit name)

pub truncate_short :
    (limit : ℕ) (name : GoString) → length name ≤ limit → truncate limit name ≡ name
unfolding truncate
truncate_short limit name h = ground arith

-- `strings.HasSuffix(s, p)`
unfoldable pub has_suffix : GoString → GoString → Bool
unfolding has_prefix
has_suffix s p = has_prefix (reverse s) (reverse p)

-- `fmt.Sprintf("%d", n)` of a number that is not negative; the fuel bounds the number of digits
digits : ℕ → ℕ → GoString
digits zero n = []
digits (suc fuel) n =
    let rest = digits fuel (n / 10) in
    if ltb n 10 then (b'0' + n) ∷ [] else rest ++ (b'0' + n % 10) ∷ []

unfoldable pub decimal : ℕ → GoString
unfolding digits
decimal n = digits (suc n) n

-- the number that a row of digits stands for
value : ℕ → GoString → ℕ
value acc [] = acc
value acc (c ∷ s) = value (acc * 10 + (c - b'0')) s

value-append :
    (acc : ℕ) (s : GoString) (c : ℕ) → value acc (s ++ c ∷ []) ≡ value acc s * 10 + (c - b'0')
unfolding value
value-append acc [] c = refl
value-append acc (d ∷ s) c = value-append (acc * 10 + (d - b'0')) s c

value-digits : (fuel n : ℕ) → n < fuel → value 0 (digits fuel n) ≡ n
unfolding digits value
value-digits zero n h = absurd (omega arith)
value-digits (suc fuel) n h = elim (Bool-cases (ltb n 10)) [
  | inl e ↦ rw e (omega arith)
  | inr e ↦ rw e (
      rw
        (
          value-append 0 (digits fuel (n / 10)) (b'0' + n % 10),
          value-digits fuel (n / 10) (ground arith),
        )
        (omega arith))
]

-- Two numbers that print alike are equal.
pub decimal_inj : (m n : ℕ) → decimal m ≡ decimal n → m ≡ n
unfolding decimal
decimal_inj m n e =
    sym (value-digits (suc m) m (omega arith))
    ∙ ap (value 0) e
    ∙ value-digits (suc n) n (omega arith)

-- the bytes of a number are digits
digits-AllDigits : (fuel n : ℕ) → All (λ c. (b'0' ≤ c) × (c ≤ b'9')) (digits fuel n)
unfolding digits
digits-AllDigits zero n = tt
digits-AllDigits (suc fuel) n = elim (Bool-cases (ltb n 10)) [
  | inl e ↦ rw e (ground arith, tt)
  | inr e ↦ rw e (
      All-append (λ c. (b'0' ≤ c) × (c ≤ b'9')) (digits fuel (n / 10)) ((b'0' + n % 10) ∷ [])
        (digits-AllDigits fuel (n / 10)) (omega arith, tt))
]

pub decimal-AllDigits : (n : ℕ) → All (λ c. (b'0' ≤ c) × (c ≤ b'9')) (decimal n)
unfolding decimal
decimal-AllDigits n = digits-AllDigits (suc n) n
