-- ===== src/Base/Int.antt =====
-- Signed integers: Go's `int` and `time.Duration` (64 bits, two's complement).
use Prim.Native.Nat.{ℕ, suc, ◌-◌, ◌*◌, ◌%◌, ◌^◌}
use mathlib.Core.Bool.{Bool, true, false}
use mathlib.Core.Path.{◌≡◌}
use mathlib.Core.Logic.{◌↔◌}
use native.Mathlib.Omega.{arith}
use urnetwork_client.Base.Logic.{◌==◌, ltb, if◌then◌else◌}

-- `negsuc n` is -(n + 1).
pub data ℤ : Type 0 where
  pos : ℕ → ℤ
  negsuc : ℕ → ℤ

abbrev pub eq_int : ℤ → ℤ → Bool
eq_int (pos a) (pos b) = a == b
eq_int (negsuc a) (negsuc b) = a == b
eq_int _ _ = false

abbrev pub is_positive : ℤ → Bool
is_positive (pos n) = ltb 0 n
is_positive (negsuc n) = false

abbrev pub u64_mod : ℕ
u64_mod = 2 ^ 64

-- The bit pattern of an int64, and the int64 of a bit pattern.
to_word : ℤ → ℕ
to_word (pos n) = n % u64_mod
to_word (negsuc n) = u64_mod - suc (n % u64_mod)

of_word : ℕ → ℤ
of_word w = if ltb w (2 ^ 63) then pos w else negsuc (u64_mod - suc w)

-- The int64 product of `x` and a constant, with its wrap-around.
unfoldable pub mul_int64 : ℤ → ℕ → ℤ
unfolding to_word of_word
mul_int64 x k = of_word (to_word x * k % u64_mod)

pub eq_int_iff : (a b : ℤ) → (eq_int a b ≡ true) ↔ (a ≡ b)
eq_int_iff (pos a) (pos b) = ground arith
eq_int_iff (negsuc a) (negsuc b) = ground arith
eq_int_iff (pos a) (negsuc b) = ground arith
eq_int_iff (negsuc a) (pos b) = ground arith
