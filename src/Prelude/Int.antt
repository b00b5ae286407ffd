-- ===== src/Prelude/Int.antt =====
-- The C++ type `int`: integers over the native numbers, and 32-bit two's complement wrap-around.
use Prim.Native.Nat.{ℕ, suc, ◌+◌, ◌-◌, ◌≤◌, ◌<◌}
use mathlib.Core.Path.{◌≡◌, refl}
use mathlib.Core.Logic.{◌↔◌}
use mathlib.Core.Bool.{Bool, true, false}
use native.Mathlib.Omega.{arith}
use opcuatesttool.Prelude.Tests.{ltb, leb, nat_beq, if◌then◌else◌}

-- `negsuc n` is -(n + 1).
pub data ℤ : Type 0 where
  pos : ℕ → ℤ
  negsuc : ℕ → ℤ

abbrev pub int_beq : ℤ → ℤ → Bool
int_beq (pos a) (pos b) = nat_beq a b
int_beq (pos a) (negsuc b) = false
int_beq (negsuc a) (pos b) = false
int_beq (negsuc a) (negsuc b) = nat_beq a b

pub int_beq_iff : (a b : ℤ) → (int_beq a b ≡ true) ↔ (a ≡ b)
int_beq_iff (pos a) (pos b) = ground arith
int_beq_iff (pos a) (negsuc b) = ground arith
int_beq_iff (negsuc a) (pos b) = ground arith
int_beq_iff (negsuc a) (negsuc b) = ground arith

abbrev pub pos_part : ℤ → ℕ
pos_part (pos n) = n
pos_part (negsuc n) = 0

abbrev pub neg_part : ℤ → ℕ
neg_part (pos n) = 0
neg_part (negsuc n) = suc n

-- a - b, as an integer.
abbrev pub sub_ℕ : ℕ → ℕ → ℤ
sub_ℕ a b = if leb b a then pos (a - b) else negsuc (b - a - 1)

unfoldable pub ltb_ℤ : ℤ → ℤ → Bool
ltb_ℤ a b = ltb (pos_part a + neg_part b) (pos_part b + neg_part a)

unfoldable pub leb_ℤ : ℤ → ℤ → Bool
leb_ℤ a b = leb (pos_part a + neg_part b) (pos_part b + neg_part a)

infix 50 ◌≤ℤ◌
abbrev pub ◌≤ℤ◌ : ℤ → ℤ → Type 0
a ≤ℤ b = pos_part a + neg_part b ≤ pos_part b + neg_part a

-- The bound 2 ^ 31 of `int`.
abbrev pub int_half : ℕ
int_half = 2147483648

-- A number between -(2 ^ 31) and 2 ^ 31 - 1.
abbrev pub fits_int : ℤ → Bool
fits_int (pos n) = ltb n int_half
fits_int (negsuc n) = ltb n int_half

-- The result of one addition or subtraction of two `int`s, brought back into range.
abbrev pub wrap_int : ℤ → ℤ
wrap_int (pos n) = if ltb n int_half then pos n else sub_ℕ n (int_half + int_half)
wrap_int (negsuc n) = if ltb n int_half then negsuc n else sub_ℕ (int_half + int_half) (suc n)

unfoldable pub add_int : ℤ → ℤ → ℤ
add_int a b = wrap_int (sub_ℕ (pos_part a + pos_part b) (neg_part a + neg_part b))

unfoldable pub sub_int : ℤ → ℤ → ℤ
sub_int a b = wrap_int (sub_ℕ (pos_part a + neg_part b) (neg_part a + pos_part b))

pub ltb_ℤ-pos : (a b : ℕ) → ltb_ℤ (pos a) (pos b) ≡ ltb a b
unfolding ltb_ℤ
ltb_ℤ-pos a b = ground arith

pub leb_ℤ-pos : (a b : ℕ) → leb_ℤ (pos a) (pos b) ≡ leb a b
unfolding leb_ℤ
leb_ℤ-pos a b = ground arith

-- `highestId < fileId` at the initial -1, and the test `id >= 0` at the final -1.
pub leb_ℤ-negative : (a n : ℕ) → leb_ℤ (pos a) (negsuc n) ≡ false
unfolding leb_ℤ
leb_ℤ-negative a n = ground arith

-- A sum that fits is exact.
pub add_int-pos : (a b : ℕ) → a + b < int_half → add_int (pos a) (pos b) ≡ pos (a + b)
unfolding add_int
add_int-pos a b h = ground arith

pub add_int-one : (n : ℕ) → suc n < int_half → add_int (pos n) (pos 1) ≡ pos (suc n)
unfolding add_int
add_int-one n h = ground arith

pub sub_int-one : (n : ℕ) → n < int_half → sub_int (pos (suc n)) (pos 1) ≡ pos n
unfolding sub_int
sub_int-one n h = ground arith

pub sub_int-zero_one : sub_int (pos 0) (pos 1) ≡ negsuc 0
unfolding sub_int
sub_int-zero_one = refl

pub leb_ℤ-sub_int :
    (h m n : ℕ)
    → h < int_half
    → m < int_half
    → leb_ℤ (sub_int (pos h) (pos m)) (pos n) ≡ leb h (n + m)
unfolding leb_ℤ sub_int
leb_ℤ-sub_int h m n p q = ground arith
