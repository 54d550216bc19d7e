-- ===== src/Prelude/Int.antt =====
-- Signed integers, and the two's complement of w-bit words.
use Prim.Native.Nat.{ℕ, ◌-◌, ◌%◌, ◌^◌, ◌<◌}
use mathlib.Core.Bool.{Bool, true, false}
use krepe.Prelude.Tests.{ltb, ◌==◌, if◌then◌else◌}

-- `negsuc n` is -(n + 1).
pub data ℤ : Type 0 where
  pos : ℕ → ℤ
  negsuc : ℕ → ℤ

abbrev pub minus_one : ℤ
minus_one = negsuc 0

abbrev pub is_negative : ℤ → Bool
is_negative (pos n) = false
is_negative (negsuc n) = true

unfoldable pub int_eq : ℤ → ℤ → Bool
int_eq (pos m) (pos n) = m == n
int_eq (negsuc m) (negsuc n) = m == n
int_eq _ _ = false

-- The value fits in a signed word of `w` bits; in an unsigned one.
abbrev pub FitsSigned : ℕ → ℤ → Type 0
FitsSigned w (pos n) = n < 2 ^ (w - 1)
FitsSigned w (negsuc n) = n < 2 ^ (w - 1)

abbrev pub FitsUnsigned : ℕ → ℤ → Type 0
FitsUnsigned w (pos n) = n < 2 ^ w
FitsUnsigned w (negsuc n) = ⊥

-- The bits of an integer in a word of `w` bits: conversion to an unsigned type.
abbrev pub to_bits : ℕ → ℤ → ℕ
to_bits w (pos n) = n % 2 ^ w
to_bits w (negsuc n) = 2 ^ w - 1 - n % 2 ^ w

-- The integer that the lower `w` bits stand for: conversion to a signed type.
abbrev pub of_bits : ℕ → ℕ → ℤ
of_bits w b = let m = b % 2 ^ w in if ltb m (2 ^ (w - 1)) then pos m else negsuc (2 ^ w - 1 - m)
