-- ===== src/Base/Int.antt =====
-- Go's signed integers: the value of an `int` or an `int64`, and the tests that the code makes.
use Prim.Native.Nat.{ℕ, zero, suc, ◌+◌, ◌-◌, ◌*◌, ◌/◌, ◌^◌}
use mathlib.Core.Path.{◌≡◌}
use mathlib.Core.Logic.{◌↔◌}
use mathlib.Core.Bool.{Bool, true, false}
use native.Mathlib.Omega.{arith}
use mockingo_agent.Base.Tests.{ltb, leb, if◌then◌else◌, ◌==◌ as nat_eq}

-- `negsuc n` is -(n + 1).
pub data ℤ : Type 0 where
  pos : ℕ → ℤ
  negsuc : ℕ → ℤ

-- a < b
abbrev pub lt_int : ℤ → ℤ → Bool
lt_int (pos a) (pos b) = ltb a b
lt_int (pos a) (negsuc b) = false
lt_int (negsuc a) (pos b) = true
lt_int (negsuc a) (negsuc b) = ltb b a

-- a == b
abbrev pub eq_int : ℤ → ℤ → Bool
eq_int (pos a) (pos b) = nat_eq a b
eq_int (pos a) (negsuc b) = false
eq_int (negsuc a) (pos b) = false
eq_int (negsuc a) (negsuc b) = nat_eq a b

pub eq_int_iff : (a b : ℤ) → (eq_int a b ≡ true) ↔ (a ≡ b)
eq_int_iff (pos a) (pos b) = ground arith
eq_int_iff (pos a) (negsuc b) = ground arith
eq_int_iff (negsuc a) (pos b) = ground arith
eq_int_iff (negsuc a) (negsuc b) = ground arith

-- a * 2 on an `int64`, which wraps.
abbrev pub double64 : ℤ → ℤ
double64 (pos n) = if ltb (n * 2) (2 ^ 63) then pos (n * 2) else negsuc (2 ^ 64 - n * 2 - 1)
double64 (negsuc n) =
    if leb (n * 2 + 2) (2 ^ 63) then negsuc (n * 2 + 1) else pos (2 ^ 64 - (n * 2 + 2))

-- a + b on an `int64`, which wraps.
abbrev pub add64 : ℤ → ℤ → ℤ
add64 (pos a) (pos b) = if ltb (a + b) (2 ^ 63) then pos (a + b) else negsuc (2 ^ 64 - (a + b) - 1)
add64 (pos a) (negsuc b) = if ltb b a then pos (a - b - 1) else negsuc (b - a)
add64 (negsuc a) (pos b) = if ltb a b then pos (b - a - 1) else negsuc (a - b)
add64 (negsuc a) (negsuc b) =
    if leb (a + b + 2) (2 ^ 63) then negsuc (a + b + 1) else pos (2 ^ 64 - (a + b + 2))

abbrev minus : ℕ → ℤ
minus zero = pos zero
minus (suc n) = negsuc n

-- a / 2, which Go rounds towards zero.
abbrev pub half_int : ℤ → ℤ
half_int (pos n) = pos (n / 2)
half_int (negsuc n) = minus ((n + 1) / 2)
