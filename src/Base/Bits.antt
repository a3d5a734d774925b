-- ===== src/Base/Bits.antt =====
-- Fixed-width integers of C++ as natural numbers, and their bits in the form that the arithmetic
-- tactics read. The last lemmas tie these forms to `&` and `|` with one-bit and low masks.
use Prim.Native.Nat.{ℕ, ◌+◌, ◌-◌, ◌/◌, ◌%◌, ◌^◌}
use mathlib.Core.Bool.{Bool, true, false}
use cutiecoco.Base.Tests.{◌==◌, if◌then◌else◌}

abbrev pub u8 : ℕ → ℕ
u8 n = n % 256

abbrev pub u16 : ℕ → ℕ
u16 n = n % 65536

-- `(x & (1 << k)) != 0`.
abbrev pub bit : ℕ → ℕ → Bool
bit x k = (x / 2 ^ k) % 2 == 1

-- The value of a Boolean as C++ converts it to an integer.
abbrev pub of_bool : Bool → ℕ
of_bool true = 1
of_bool false = 0

-- `x | (1 << k)` and `x & ~(1 << k)`.
abbrev pub set_bit : ℕ → ℕ → ℕ
set_bit x k = if bit x k then x else x + 2 ^ k

abbrev pub clear_bit : ℕ → ℕ → ℕ
clear_bit x k = if bit x k then x - 2 ^ k else x
