-- ===== src/Command/Driver/Version.antt =====
-- cmd/driver/main.go: `checkKubeVersion`, which only logs. `strconv.Atoi` gives a number beside its
-- error, which the code drops: 0 for a text that is no number, the bound for one out of range.
use composite_dra_driver.Prelude.{
  ℕ, zero, suc, ◌+◌, ◌*◌, ◌-◌, ◌^◌, Bool, false, ◌&&◌, [], ◌∷◌, reverse, Option, none, some, ℤ, pos,
  negsuc, GoString, leb, ◌==◌, if◌then◌else◌,
}
use composite_dra_driver.Prelude.Result.{Result, ok, err}

drop_plus : GoString → GoString
drop_plus [] = []
drop_plus (c ∷ s) = let rest = drop_plus s in if c == b'+' then rest else c ∷ s

-- `strings.TrimRight(s, "+")`
unfoldable pub trim_right_plus : GoString → GoString
unfolding drop_plus
trim_right_plus s = reverse (drop_plus (reverse s))

-- the number of a row of digits after `acc`
digits_value : ℕ → GoString → Option ℕ
digits_value acc [] = some acc
digits_value acc (c ∷ s) =
    let rest = digits_value (acc * 10 + (c - b'0')) s in
    if leb b'0' c && leb c b'9' then rest else none

unsigned : GoString → Option ℕ
unfolding digits_value
unsigned [] = none
unsigned (c ∷ s) = digits_value 0 (c ∷ s)

-- the bounds of 64 bits
positive : Option ℕ → ℤ
positive none = pos 0
positive (some n) = if leb (2 ^ 63) n then pos (2 ^ 63 - 1) else pos n

negative_of : ℕ → ℤ
negative_of zero = pos 0
negative_of (suc n) = if leb (2 ^ 63) n then negsuc (2 ^ 63 - 1) else negsuc n

negative : Option ℕ → ℤ
unfolding negative_of
negative none = pos 0
negative (some n) = negative_of n

-- `minor, _ := strconv.Atoi(s)`
unfoldable pub atoi : GoString → ℤ
unfolding unsigned positive negative
atoi [] = pos 0
atoi (c ∷ s) =
    if c == b'-'
    then negative (unsigned s)
    else if c == b'+'
    then positive (unsigned s)
    else positive (unsigned (c ∷ s))

abbrev is_at_least : ℕ → ℤ → Bool
is_at_least n (pos m) = leb n m
is_at_least n (negsuc m) = false

-- whether the driver logs that the webhook is not needed; `minor` is the server's `Minor`
unfoldable pub check_kube_version {ℓ} : {E : Type ℓ} → Result E GoString → Bool
unfolding atoi trim_right_plus
check_kube_version (err e) = false
check_kube_version (ok minor) = is_at_least 36 (atoi (trim_right_plus minor))
