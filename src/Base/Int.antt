-- ===== src/Base/Int.antt =====
-- Go's signed integers over the native numbers, under the library's names. An int64 is kept as the
-- integer it stands for; its range is an explicit predicate, and the conversions to and from uint64
-- are written out.
use Prim.Native.Nat.{ℕ, suc, ◌+◌, ◌-◌, ◌%◌, ◌^◌, ◌≤◌, ◌<◌}
use mathlib.Core.Path.{◌≡◌}
use mathlib.Core.Logic.{◌↔◌}
use mathlib.Core.Bool.{Bool, true}
use native.Mathlib.Omega.{arith}
use goapptrace.Base.Tests.{ltb, leb, ◌==◌, if◌then◌else◌}

-- `negsuc n` is -(n + 1).
pub data ℤ : Type 0 where
  pos : ℕ → ℤ
  negsuc : ℕ → ℤ

abbrev pub pos_part : ℤ → ℕ
pos_part (pos n) = n
pos_part (negsuc n) = 0

abbrev pub neg_part : ℤ → ℕ
neg_part (pos n) = 0
neg_part (negsuc n) = suc n

-- a - b, as an integer.
abbrev pub sub_ℕ : ℕ → ℕ → ℤ
sub_ℕ a b = if leb b a then pos (a - b) else negsuc (b - a - 1)

infix 50 ◌≤ℤ◌ ◌<ℤ◌ ◌==ℤ◌
abbrev pub ◌≤ℤ◌ : ℤ → ℤ → Type 0
a ≤ℤ b = pos_part a + neg_part b ≤ pos_part b + neg_part a

abbrev pub ◌<ℤ◌ : ℤ → ℤ → Type 0
a <ℤ b = pos_part a + neg_part b < pos_part b + neg_part a

abbrev pub ltb_ℤ : ℤ → ℤ → Bool
ltb_ℤ a b = ltb (pos_part a + neg_part b) (pos_part b + neg_part a)

abbrev pub leb_ℤ : ℤ → ℤ → Bool
leb_ℤ a b = leb (pos_part a + neg_part b) (pos_part b + neg_part a)

abbrev pub ◌==ℤ◌ : ℤ → ℤ → Bool
a ==ℤ b = (pos_part a + neg_part b) == (pos_part b + neg_part a)

-- The values of an int64.
abbrev pub IsInt64 : ℤ → Type 0
IsInt64 a = (pos_part a < 2 ^ 63) × (neg_part a ≤ 2 ^ 63)

-- uint64(a)
abbrev pub to_uint64 : ℤ → ℕ
to_uint64 (pos n) = n % 2 ^ 64
to_uint64 (negsuc n) = 2 ^ 64 - 1 - n % 2 ^ 64

-- int64(u), for a uint64 u
abbrev pub to_int64 : ℕ → ℤ
to_int64 u = if ltb u (2 ^ 63) then pos u else negsuc (2 ^ 64 - 1 - u)

pub to_uint64-lt : (a : ℤ) → to_uint64 a < 2 ^ 64
to_uint64-lt (pos n) = omega arith
to_uint64-lt (negsuc n) = omega arith

pub to_int64-to_uint64 : (a : ℤ) → IsInt64 a → to_int64 (to_uint64 a) ≡ a
to_int64-to_uint64 (pos n) h = ground arith
to_int64-to_uint64 (negsuc n) h = ground arith

pub eq_of_parts : (a b : ℤ) → pos_part a + neg_part b ≡ pos_part b + neg_part a → a ≡ b
eq_of_parts a b h = ground arith

pub ==ℤ_iff : (a b : ℤ) → ((a ==ℤ b) ≡ true) ↔ (a ≡ b)
==ℤ_iff a b = ground arith

-- a++ on an int64
unfoldable pub incr_int64 : ℤ → ℤ
incr_int64 a = to_int64 ((to_uint64 a + 1) % 2 ^ 64)

pub incr_int64-pos : (n : ℕ) → n + 1 < 2 ^ 63 → incr_int64 (pos n) ≡ pos (n + 1)
unfolding incr_int64
incr_int64-pos n h = ground arith
