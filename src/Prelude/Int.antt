-- ===== src/Prelude/Int.antt =====
-- Go's `int` and `int64`, as whole numbers.
use Prim.Native.Nat.{ℕ, zero, suc, ◌+◌, ◌-◌, ◌%◌, ◌<◌}
use mathlib.Core.Path.{◌≡◌, refl}
use native.Mathlib.Omega.{arith}
use mathlib.Core.Bool.{Bool, true, false}
use composite_dra_driver.Prelude.Tests.{ltb, if◌then◌else◌}

-- `negsuc n` is -(n + 1).
pub data ℤ : Type 0 where
  pos : ℕ → ℤ
  negsuc : ℕ → ℤ

-- `n < k` for the length `n` of a slice
abbrev pub len_lt : ℕ → ℤ → Bool
len_lt n (pos k) = ltb n k
len_lt n (negsuc k) = false

-- `k < 1`
abbrev pub lt_one : ℤ → Bool
lt_one (pos zero) = true
lt_one (pos (suc k)) = false
lt_one (negsuc k) = true

-- `1 < k`
abbrev pub one_lt : ℤ → Bool
one_lt (pos k) = ltb 1 k
one_lt (negsuc k) = false

-- `k < 0`
abbrev pub is_negative : ℤ → Bool
is_negative (pos k) = false
is_negative (negsuc k) = true

-- The 64-bit integer of a bit pattern, and back.
abbrev pub two_64 : ℕ
two_64 = 18446744073709551616

abbrev pub two_63 : ℕ
two_63 = 9223372036854775808

unfoldable pub int64 : ℕ → ℤ
int64 n = let m = n % two_64 in if ltb m two_63 then pos m else negsuc (two_64 - 1 - m)

bits : ℤ → ℕ
bits (pos n) = n % two_64
bits (negsuc n) = two_64 - 1 - n % two_64

-- `a + b`, which wraps around
unfoldable pub add_int64 : ℤ → ℤ → ℤ
unfolding bits int64
add_int64 a b = int64 (bits a + bits b)

bits-int64 : (n : ℕ) → bits (int64 n) ≡ n % two_64
unfolding bits int64
bits-int64 n = ground arith

int64_mod : (m n : ℕ) → m % two_64 ≡ n % two_64 → int64 m ≡ int64 n
unfolding int64
int64_mod m n h = rw h refl

pub add_int64_pos : (m n : ℕ) → add_int64 (int64 m) (pos n) ≡ int64 (m + n)
unfolding add_int64 bits
add_int64_pos m n =
    int64_mod (bits (int64 m) + n % two_64) (m + n) (rw (bits-int64 m) (omega arith))

pub int64_small : (n : ℕ) → n < two_63 → int64 n ≡ pos n
unfolding int64
int64_small n h = ground arith

-- `a < b`
abbrev pub lt_int : ℤ → ℤ → Bool
lt_int (pos m) (pos n) = ltb m n
lt_int (pos m) (negsuc n) = false
lt_int (negsuc m) (pos n) = true
lt_int (negsuc m) (negsuc n) = ltb n m
