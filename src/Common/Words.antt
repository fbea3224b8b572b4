-- ===== src/Common/Words.antt =====
-- Machine words as native numbers with the wrap written out, and C's signed `int`.
use Prim.Native.Nat.{ℕ, suc, ◌+◌, ◌-◌, ◌*◌, ◌/◌, ◌%◌, ◌^◌}
use mathlib.Core.Bool.{Bool, true, false, ◌&&◌}
use blk_switch.Common.Tests.{ltb, leb, ◌==◌, if◌then◌else◌}

-- `unsigned long`
abbrev pub u64 : ℕ → ℕ
u64 n = n % 2 ^ 64

-- `unsigned int`, and the bit pattern of an `int`
abbrev pub u32 : ℕ → ℕ
u32 n = n % 2 ^ 32

-- An `int` with this bit pattern, converted to `unsigned long`.
abbrev pub sext : ℕ → ℕ
sext w = if ltb w (2 ^ 31) then w else w + (2 ^ 64 - 2 ^ 32)

-- `w >> 3` on the bit pattern of an `int`: the sign is shifted in.
abbrev pub asr3 : ℕ → ℕ
asr3 w = if ltb w (2 ^ 31) then w / 8 else w / 8 + 7 * 2 ^ 29

-- `negsuc n` is -(n + 1).
pub data ℤ : Type 0 where
  pos : ℕ → ℤ
  negsuc : ℕ → ℤ

abbrev pub pos_part : ℤ → ℕ
pos_part (pos n) = n
pos_part (negsuc n) = 0

abbrev pub neg_part : ℤ → ℕ
neg_part (pos n) = 0
neg_part (negsuc n) = suc n

-- a - b, as an integer.
abbrev pub sub_ℕ : ℕ → ℕ → ℤ
sub_ℕ a b = if leb b a then pos (a - b) else negsuc (b - a - 1)

abbrev pub ltz : ℤ → ℤ → Bool
ltz a b = ltb (pos_part a + neg_part b) (pos_part b + neg_part a)

abbrev pub eqz : ℤ → ℤ → Bool
eqz a b = (pos_part a + neg_part b) == (pos_part b + neg_part a)

-- An `int` as a condition.
abbrev pub is_nonzero : ℤ → Bool
is_nonzero a = if (pos_part a == 0) && (neg_part a == 0) then false else true
