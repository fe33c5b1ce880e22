-- ===== src/Prelude/Int.antt =====
-- Go's `int` and `int32` as integers: signed numbers over the native ones, with the tests and the
-- conversion that the program uses.
use lbex.Prelude.Tests.{ltb, leb, nat_beq, if◌then◌else◌}
use Prim.Native.Nat.{ℕ, suc, ◌-◌, ◌%◌, ◌^◌, ◌≤◌}
use mathlib.Core.Path.{◌≡◌}
use mathlib.Core.Logic.{◌↔◌}
use mathlib.Core.Bool.{Bool, true, false}
use native.Mathlib.Omega.{arith}

-- `negsuc n` is -(n + 1).
pub data ℤ : Type 0 where
  pos : ℕ → ℤ
  negsuc : ℕ → ℤ

abbrev pub eqb_ℤ : ℤ → ℤ → Bool
eqb_ℤ (pos a) (pos b) = nat_beq a b
eqb_ℤ (negsuc a) (negsuc b) = nat_beq a b
eqb_ℤ (pos a) (negsuc b) = false
eqb_ℤ (negsuc a) (pos b) = false

abbrev pub leb_ℤ : ℤ → ℤ → Bool
leb_ℤ (pos a) (pos b) = leb a b
leb_ℤ (negsuc a) (negsuc b) = leb b a
leb_ℤ (pos a) (negsuc b) = false
leb_ℤ (negsuc a) (pos b) = true

-- The conversion `int32(x)`: the low 32 bits, read as a signed number.
abbrev signed32 : ℕ → ℤ
signed32 u = if ltb u (2 ^ 31) then pos u else negsuc (2 ^ 32 - u - 1)

abbrev pub to_int32 : ℤ → ℤ
to_int32 (pos n) = signed32 (n % 2 ^ 32)
to_int32 (negsuc n) = signed32 (2 ^ 32 - 1 - n % 2 ^ 32)

-- The values of an `int32`.
abbrev pub IsInt32 : ℤ → Type 0
IsInt32 (pos n) = suc n ≤ 2 ^ 31
IsInt32 (negsuc n) = suc n ≤ 2 ^ 31

-- The values of an `int64`, and of an `int` on the platforms of 64 bits.
abbrev pub IsInt64 : ℤ → Type 0
IsInt64 (pos n) = suc n ≤ 2 ^ 63
IsInt64 (negsuc n) = suc n ≤ 2 ^ 63

pub eqb_ℤ_iff : (a b : ℤ) → (eqb_ℤ a b ≡ true) ↔ (a ≡ b)
eqb_ℤ_iff a b = ground arith

-- On an `int32` the conversion is the identity.
pub to_int32_id : (a : ℤ) → IsInt32 a → to_int32 a ≡ a
to_int32_id a h = ground arith
