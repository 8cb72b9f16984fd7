-- ===== src/Prelude/Int.antt =====
-- Signed integers over the native numbers, for the counters of the source that can go below zero.
use Prim.Native.Nat.{ℕ, suc, ◌+◌, ◌-◌, ◌%◌, ◌≤◌, ◌<◌}
use mathlib.Core.Path.{◌≡◌}
use mathlib.Core.Bool.{Bool}
use native.Mathlib.Omega.{arith}
use zerohttp.Prelude.Tests.{ltb, leb, if◌then◌else◌}

-- `negsuc n` is -(n + 1).
pub data ℤ : Type 0 where
  pos : ℕ → ℤ
  negsuc : ℕ → ℤ

abbrev pub pos_part : ℤ → ℕ
pos_part (pos n) = n
pos_part (negsuc n) = 0

abbrev pub neg_part : ℤ → ℕ
neg_part (pos n) = 0
neg_part (negsuc n) = suc n

abbrev pub sub_ℕ : ℕ → ℕ → ℤ
sub_ℕ a b = if leb b a then pos (a - b) else negsuc (b - a - 1)

infixl 65 ◌+ℤ◌ ◌-ℤ◌
infix 50 ◌≤ℤ◌
abbrev pub ◌+ℤ◌ : ℤ → ℤ → ℤ
a +ℤ b = sub_ℕ (pos_part a + pos_part b) (neg_part a + neg_part b)

abbrev pub ◌-ℤ◌ : ℤ → ℤ → ℤ
a -ℤ b = sub_ℕ (pos_part a + neg_part b) (neg_part a + pos_part b)

abbrev pub ◌≤ℤ◌ : ℤ → ℤ → Type 0
a ≤ℤ b = pos_part a + neg_part b ≤ pos_part b + neg_part a

abbrev pub leb_ℤ : ℤ → ℤ → Bool
leb_ℤ a b = leb (pos_part a + neg_part b) (pos_part b + neg_part a)

abbrev pub ltb_ℤ : ℤ → ℤ → Bool
ltb_ℤ a b = ltb (pos_part a + neg_part b) (pos_part b + neg_part a)

pub +ℤ-cancel : (a b : ℤ) → a +ℤ b -ℤ b ≡ a
+ℤ-cancel a b = ground arith

-- The 64 bits of a number as a Go int: the upper half is negative.
abbrev pub to_signed : ℕ → ℤ
to_signed n = if ltb n 9223372036854775808 then pos n else negsuc (18446744073709551615 - n)

-- An integer as the Go int that arithmetic leaves of it.
abbrev pub wrap_int : ℤ → ℤ
wrap_int (pos n) = to_signed (n % 18446744073709551616)
wrap_int (negsuc n) = to_signed (18446744073709551615 - n % 18446744073709551616)

-- The remainder of Go, with the sign of the dividend, by a positive number.
abbrev pub remainder : ℤ → ℕ → ℤ
remainder (pos m) n = pos (m % n)
remainder (negsuc m) n = pos 0 -ℤ pos ((m + 1) % n)

-- A sum less one is not wrapped where it is an int, though the sum may be one more.
pub wrap_int-less_one :
    (m : ℕ) → 0 < m → m ≤ 9223372036854775808 → wrap_int (wrap_int (pos m) -ℤ pos 1) ≡ pos (m - 1)
wrap_int-less_one m positive small = ground arith
