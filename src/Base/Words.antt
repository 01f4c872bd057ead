-- ===== src/Base/Words.antt =====
-- Rust's checked, saturating and wrapping operations on the unsigned machine integers. The first
-- argument is the modulus of the width, `2 ^ w`. `saturating_sub` is the truncated `-` of ℕ.
use Prim.Native.Nat.{ℕ, ◌+◌, ◌-◌, ◌*◌, ◌/◌, ◌%◌, ◌≤◌}
use mathlib.Core.Option.{Option, none, some}
use native.Mathlib.Omega.{arith}
use zero_dao_node.Base.Tests.{ltb, leb, ◌==◌, if◌then◌else◌}

abbrev pub u32 : ℕ
u32 = 4_294_967_296

abbrev pub u64 : ℕ
u64 = 18_446_744_073_709_551_616

abbrev pub u128 : ℕ
u128 = 340_282_366_920_938_463_463_374_607_431_768_211_456

abbrev pub checked_add : ℕ → ℕ → ℕ → Option ℕ
checked_add w a b = if ltb (a + b) w then some (a + b) else none

abbrev pub checked_sub : ℕ → ℕ → Option ℕ
checked_sub a b = if leb b a then some (a - b) else none

abbrev pub checked_mul : ℕ → ℕ → ℕ → Option ℕ
checked_mul w a b = if ltb (a * b) w then some (a * b) else none

abbrev pub checked_div : ℕ → ℕ → Option ℕ
checked_div a b = if b == 0 then none else some (a / b)

abbrev pub saturating_add : ℕ → ℕ → ℕ → ℕ
saturating_add w a b = if ltb (a + b) w then a + b else w - 1

abbrev pub saturating_sub : ℕ → ℕ → ℕ
saturating_sub a b = a - b

abbrev pub saturating_mul : ℕ → ℕ → ℕ → ℕ
saturating_mul w a b = if ltb (a * b) w then a * b else w - 1

abbrev pub wrapping_add : ℕ → ℕ → ℕ → ℕ
wrapping_add w a b = (a + b) % w

-- `b` is at most the modulus.
abbrev pub wrapping_sub : ℕ → ℕ → ℕ → ℕ
wrapping_sub w a b = (a + w - b) % w

pub saturating_add-le : (w a b : ℕ) → saturating_add w a b ≤ a + b
saturating_add-le w a b = ground arith
