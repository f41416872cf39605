-- ===== src/Base/Int.antt =====
-- Signed integers over the native numbers, and `i64`, whose arithmetic wraps in a release build.
use Prim.Native.Nat.{ℕ, suc, ◌+◌, ◌-◌, ◌*◌, ◌/◌, ◌%◌, ◌^◌, ◌≤◌, ◌<◌}
use mathlib.Core.Path.{◌≡◌}
use mathlib.Core.Logic.{◌↔◌}
use mathlib.Core.Bool.{Bool, true}
use native.Mathlib.Omega.{arith}
use api_starter.Base.Tests.{ltb, leb, nat_eq, if◌then◌else◌}

-- `negsuc n` is -(n + 1).
pub data ℤ : Type 0 where
  pos : ℕ → ℤ
  negsuc : ℕ → ℤ

abbrev pub pos_part : ℤ → ℕ
pos_part (pos n) = n
pos_part (negsuc n) = 0

abbrev pub neg_part : ℤ → ℕ
neg_part (pos n) = 0
neg_part (negsuc n) = suc n

-- a - b, as an integer.
abbrev pub sub_ℕ : ℕ → ℕ → ℤ
sub_ℕ a b = if leb b a then pos (a - b) else negsuc (b - a - 1)

infixl 65 ◌+ℤ◌ ◌-ℤ◌
infixl 70 ◌*ℤ◌
infix 50 ◌≤ℤ◌
unfoldable pub ◌+ℤ◌ : ℤ → ℤ → ℤ
a +ℤ b = sub_ℕ (pos_part a + pos_part b) (neg_part a + neg_part b)

unfoldable pub ◌-ℤ◌ : ℤ → ℤ → ℤ
a -ℤ b = sub_ℕ (pos_part a + neg_part b) (neg_part a + pos_part b)

unfoldable pub ◌*ℤ◌ : ℤ → ℤ → ℤ
a *ℤ b =
    sub_ℕ (pos_part a * pos_part b + neg_part a * neg_part b)
      (pos_part a * neg_part b + neg_part a * pos_part b)

abbrev pub ◌≤ℤ◌ : ℤ → ℤ → Type 0
a ≤ℤ b = pos_part a + neg_part b ≤ pos_part b + neg_part a

abbrev pub ltb_ℤ : ℤ → ℤ → Bool
ltb_ℤ a b = ltb (pos_part a + neg_part b) (pos_part b + neg_part a)

abbrev pub leb_ℤ : ℤ → ℤ → Bool
leb_ℤ a b = leb (pos_part a + neg_part b) (pos_part b + neg_part a)

abbrev pub int_eq : ℤ → ℤ → Bool
int_eq a b = nat_eq (pos_part a + neg_part b) (pos_part b + neg_part a)

pub int_eq_iff : (a b : ℤ) → (int_eq a b ≡ true) ↔ (a ≡ b)
int_eq_iff a b = ground arith

pub int_eq_refl : (a : ℤ) → int_eq a a ≡ true
int_eq_refl a = ground arith

-- The range of `i64`.
abbrev pub i64_min : ℤ
i64_min = negsuc 9223372036854775807

abbrev pub i64_max : ℤ
i64_max = pos 9223372036854775807

abbrev pub IsI64 : ℤ → Type 0
IsI64 a = (i64_min ≤ℤ a) × (a ≤ℤ i64_max)

-- The bit pattern of an integer modulo 2^64, and the `i64` that a bit pattern stands for.
abbrev pub to_word : ℤ → ℕ
to_word (pos n) = n % 2 ^ 64
to_word (negsuc n) = 2 ^ 64 - 1 - n % 2 ^ 64

abbrev pub of_word : ℕ → ℤ
of_word w = if ltb w (2 ^ 63) then pos w else negsuc (2 ^ 64 - 1 - w)

unfoldable pub wrap : ℤ → ℤ
wrap a = of_word (to_word a)

pub wrap-IsI64 : (a : ℤ) → IsI64 (wrap a)
unfolding wrap
wrap-IsI64 a = ground arith

pub wrap_of_IsI64 : (a : ℤ) → IsI64 a → wrap a ≡ a
unfolding wrap
wrap_of_IsI64 (pos n) h = ground arith
wrap_of_IsI64 (negsuc n) h = ground arith

-- Numbers below 2^63 are kept, and those from there to 2^64 turn negative.
pub wrap_of_small : (n : ℕ) → n ≤ 9223372036854775807 → wrap (pos n) ≡ pos n
wrap_of_small n h = wrap_of_IsI64 (pos n) (omega arith)

pub wrap_of_large :
    (n : ℕ) → 2 ^ 63 ≤ n → n < 2 ^ 64 → wrap (pos n) ≡ negsuc (18446744073709551615 - n)
unfolding wrap
wrap_of_large n h k = ground arith

pub pos-add : (a b : ℕ) → pos a +ℤ pos b ≡ pos (a + b)
unfolding ◌+ℤ◌
pos-add a b = ground arith

pub pos-sub : (a b : ℕ) → b ≤ a → pos a -ℤ pos b ≡ pos (a - b)
unfolding ◌-ℤ◌
pos-sub a b h = ground arith

pub pos-mul : (a b : ℕ) → pos a *ℤ pos b ≡ pos (a * b)
unfolding ◌*ℤ◌
pos-mul a b = ground arith

-- `+`, `-` and `*` of `i64` in a release build.
abbrev pub add_i64 : ℤ → ℤ → ℤ
add_i64 a b = wrap (a +ℤ b)

abbrev pub sub_i64 : ℤ → ℤ → ℤ
sub_i64 a b = wrap (a -ℤ b)

abbrev pub mul_i64 : ℤ → ℤ → ℤ
mul_i64 a b = wrap (a *ℤ b)

-- -n, for a number.
abbrev pub neg_ℕ : ℕ → ℤ
neg_ℕ n = sub_ℕ 0 n

-- `/` and `%` of `i64` by a positive divisor: the quotient is rounded towards 0, and the remainder
-- has the sign of the dividend.
abbrev pub div_i64 : ℤ → ℕ → ℤ
div_i64 (pos n) d = pos (n / d)
div_i64 (negsuc n) d = neg_ℕ (suc n / d)

abbrev pub rem_i64 : ℤ → ℕ → ℤ
rem_i64 (pos n) d = pos (n % d)
rem_i64 (negsuc n) d = neg_ℕ (suc n % d)
