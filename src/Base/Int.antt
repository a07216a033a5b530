-- ===== src/Base/Int.antt =====
-- Rust's `i64` as an integer over the native numbers, with the wrap-around of its addition.
use Prim.Native.Nat.{ℕ, suc, ◌+◌, ◌-◌, ◌^◌, ◌≤◌, ◌<◌}
use mathlib.Core.Bool.{Bool, true, false}
use mathlib.Core.Path.{◌≡◌, refl}
use native.Mathlib.Omega.{arith}
use aircd.Base.Tests.{ltb, leb, if◌then◌else◌}

-- `negsuc n` is -(n + 1).
pub data ℤ : Type 0 where
  pos : ℕ → ℤ
  negsuc : ℕ → ℤ

abbrev pub pos_part : ℤ → ℕ
pos_part (pos n) = n
pos_part (negsuc n) = 0

abbrev pub neg_part : ℤ → ℕ
neg_part (pos n) = 0
neg_part (negsuc n) = suc n

-- a - b, as an integer.
abbrev pub sub_ℕ : ℕ → ℕ → ℤ
sub_ℕ a b = if leb b a then pos (a - b) else negsuc (b - a - 1)

infixl 65 ◌+ℤ◌
infix 50 ◌≤ℤ◌ ◌<ℤ◌
unfoldable pub ◌+ℤ◌ : ℤ → ℤ → ℤ
a +ℤ b = sub_ℕ (pos_part a + pos_part b) (neg_part a + neg_part b)

abbrev pub ◌≤ℤ◌ : ℤ → ℤ → Type 0
a ≤ℤ b = pos_part a + neg_part b ≤ pos_part b + neg_part a

abbrev pub ◌<ℤ◌ : ℤ → ℤ → Type 0
a <ℤ b = pos_part a + neg_part b < pos_part b + neg_part a

abbrev pub ltb_ℤ : ℤ → ℤ → Bool
ltb_ℤ a b = ltb (pos_part a + neg_part b) (pos_part b + neg_part a)

abbrev pub max_ℤ : ℤ → ℤ → ℤ
max_ℤ a b = if ltb_ℤ a b then b else a

abbrev pub i64_max : ℤ
i64_max = pos (2 ^ 63 - 1)

abbrev pub i64_min : ℤ
i64_min = negsuc (2 ^ 63 - 1)

abbrev pub InI64 : ℤ → Type 0
InI64 a = (i64_min ≤ℤ a) × (a ≤ℤ i64_max)

-- `a + b` on `i64`, as a release build computes it: the sum wraps around modulo 2^64.
unfoldable pub add_i64 : ℤ → ℤ → ℤ
unfolding ◌+ℤ◌
add_i64 a b =
    let s = a +ℤ b in
    if ltb_ℤ i64_max s
    then s +ℤ negsuc (2 ^ 64 - 1)
    else if ltb_ℤ s i64_min
    then s +ℤ pos (2 ^ 64)
    else s

pub ltb_ℤ→<ℤ : (a b : ℤ) → ltb_ℤ a b ≡ true → a <ℤ b
ltb_ℤ→<ℤ a b h = ground arith

pub <ℤ→ltb_ℤ : (a b : ℤ) → a <ℤ b → ltb_ℤ a b ≡ true
<ℤ→ltb_ℤ a b h = ground arith

pub ≤ℤ→ltb_ℤ : (a b : ℤ) → b ≤ℤ a → ltb_ℤ a b ≡ false
≤ℤ→ltb_ℤ a b h = ground arith

-- A sum of two `i64` values is an `i64` value.
pub add_i64-InI64 : (a b : ℤ) → InI64 a → InI64 b → InI64 (add_i64 a b)
unfolding add_i64
add_i64-InI64 a b ha hb = ground arith

wraps_around : add_i64 i64_max (pos 1) ≡ i64_min
unfolding add_i64
wraps_around = refl
