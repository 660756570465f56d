-- ===== src/Common/Int.antt =====
-- Go's signed `int`, as far as the program uses it: a difference of two numbers, and tests on it.
use Prim.Native.Nat.{ℕ, ◌+◌, ◌-◌}
use mathlib.Core.Path.{◌≡◌}
use mathlib.Core.Bool.{Bool, true, false}
use native.Mathlib.Omega.{arith}
use go_is_is.Common.Tests.{ltb, leb, if◌then◌else◌}

-- `negsuc n` is -(n + 1).
pub data ℤ : Type 0 where
  pos : ℕ → ℤ
  negsuc : ℕ → ℤ

-- a - b
abbrev pub sub_ℕ : ℕ → ℕ → ℤ
sub_ℕ a b = if leb b a then pos (a - b) else negsuc (b - a - 1)

-- a < b
abbrev pub ltb_ℤ : ℤ → ℤ → Bool
ltb_ℤ (pos a) (pos b) = ltb a b
ltb_ℤ (pos a) (negsuc b) = false
ltb_ℤ (negsuc a) (pos b) = true
ltb_ℤ (negsuc a) (negsuc b) = ltb b a

-- The four tests that the tree makes of a balance factor.
pub sub-gt_one : (a b : ℕ) → ltb_ℤ (pos 1) (sub_ℕ a b) ≡ ltb (b + 1) a
sub-gt_one a b = ground arith

pub sub-lt_minus_one : (a b : ℕ) → ltb_ℤ (sub_ℕ a b) (negsuc 0) ≡ ltb (a + 1) b
sub-lt_minus_one a b = ground arith

pub sub-lt_zero : (a b : ℕ) → ltb_ℤ (sub_ℕ a b) (pos 0) ≡ ltb a b
sub-lt_zero a b = ground arith

pub sub-gt_zero : (a b : ℕ) → ltb_ℤ (pos 0) (sub_ℕ a b) ≡ ltb b a
sub-gt_zero a b = ground arith
