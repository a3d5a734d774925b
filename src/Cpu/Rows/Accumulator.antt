-- ===== src/Cpu/Rows/Accumulator.antt =====
-- The rows 0x80 to 0xF0 of emulation/mc6809.cpp: a register and an operand, in four addressing modes
-- for A, X and the subroutine calls, and in four for B, D and U.
use Prim.Native.Nat.{bit_and, bit_or, bit_xor}
use cutiecoco.Base.{ℕ, ◌+◌, if◌then◌else◌, ◌==◌}
use cutiecoco.Cpu.Address.{direct, indexed, extended}
use cutiecoco.Cpu.Alu.{sub8, sbc8, add8, adc8, sub16, add16}
use cutiecoco.Cpu.Bus.{Bus, Act, pure, ◌>>=◌, ◌>>◌, gets, tick, load8, load16, fetch8, fetch16}
use cutiecoco.Cpu.Operations.{
  arithmetic8, compare8, result8, bit8, store_byte, arithmetic16, compare16, result16, store_word,
  bsr,
}
use cutiecoco.Cpu.Registers.{Reg8, reg_a, reg_b, reg_d, reg_x, reg_u, get8}
use cutiecoco.Cpu.Stack.{call}

module _ {M : Type 0} ⦃bus : Bus M⦄ where
  -- `A & operand` and the like, with the codes of the result.
  unfoldable pub combine8 : (ℕ → ℕ → ℕ) → Reg8 → ℕ → Act M Unit
  combine8 operation r operand = do v ← gets (get8 r); result8 r (operation v operand)

  -- The byte operations that the rows of A and of B share, by the low nibble.
  unfoldable pub byte_row : Reg8 → Act M ℕ → ℕ → ℕ → Act M Unit
  byte_row r operand cycles n =
      if n == 0
      then ((operand >>= arithmetic8 sub8 r) >> tick cycles)
      else if n == 1
      then ((operand >>= compare8 r) >> tick cycles)
      else if n == 2
      then ((operand >>= arithmetic8 sbc8 r) >> tick cycles)
      else if n == 4
      then ((operand >>= combine8 bit_and r) >> tick cycles)
      else if n == 5
      then ((operand >>= bit8 r) >> tick cycles)
      else if n == 6
      then ((operand >>= result8 r) >> tick cycles)
      else if n == 8
      then ((operand >>= combine8 bit_xor r) >> tick cycles)
      else if n == 9
      then ((operand >>= arithmetic8 adc8 r) >> tick cycles)
      else if n == 10
      then ((operand >>= combine8 bit_or r) >> tick cycles)
      else if n == 11
      then ((operand >>= arithmetic8 add8 r) >> tick cycles)
      else pure tt

  -- The rows of A with an operand in memory.
  unfoldable pub row_left : Act M ℕ → ℕ → ℕ → Act M Unit
  row_left mode cycles n =
      if n == 3
      then (((mode >>= load16) >>= arithmetic16 sub16 reg_d) >> tick (cycles + 2))
      else if n == 7
      then ((mode >>= store_byte reg_a) >> tick cycles)
      else if n == 12
      then (((mode >>= load16) >>= compare16 reg_x) >> tick (cycles + 2))
      else if n == 13
      then (mode >>= λ at. call at (cycles + 3))
      else if n == 14
      then (((mode >>= load16) >>= result16 reg_x) >> tick (cycles + 1))
      else if n == 15
      then ((mode >>= store_word reg_x) >> tick (cycles + 1))
      else byte_row reg_a (mode >>= load8) cycles n

  -- The rows of B with an operand in memory.
  unfoldable pub row_right : Act M ℕ → ℕ → ℕ → Act M Unit
  row_right mode cycles n =
      if n == 3
      then (((mode >>= load16) >>= arithmetic16 add16 reg_d) >> tick (cycles + 2))
      else if n == 7
      then ((mode >>= store_byte reg_b) >> tick cycles)
      else if n == 12
      then (((mode >>= load16) >>= result16 reg_d) >> tick (cycles + 1))
      else if n == 13
      then ((mode >>= store_word reg_d) >> tick (cycles + 1))
      else if n == 14
      then (((mode >>= load16) >>= result16 reg_u) >> tick (cycles + 1))
      else if n == 15
      then ((mode >>= store_word reg_u) >> tick (cycles + 1))
      else byte_row reg_b (mode >>= load8) cycles n

  -- Immediate operands: nothing is stored, and 0x8D is BSR.
  unfoldable pub row_80 : ℕ → Act M Unit
  row_80 n =
      if n == 3
      then ((fetch16 >>= arithmetic16 sub16 reg_d) >> tick 4)
      else if n == 12
      then ((fetch16 >>= compare16 reg_x) >> tick 4)
      else if n == 13
      then bsr
      else if n == 14
      then ((fetch16 >>= result16 reg_x) >> tick 3)
      else byte_row reg_a fetch8 2 n

  unfoldable pub row_90 : ℕ → Act M Unit
  row_90 n = row_left direct 4 n

  unfoldable pub row_a0 : ℕ → Act M Unit
  row_a0 n = row_left indexed 4 n

  unfoldable pub row_b0 : ℕ → Act M Unit
  row_b0 n = row_left extended 5 n

  unfoldable pub row_c0 : ℕ → Act M Unit
  row_c0 n =
      if n == 3
      then ((fetch16 >>= arithmetic16 add16 reg_d) >> tick 4)
      else if n == 12
      then ((fetch16 >>= result16 reg_d) >> tick 3)
      else if n == 14
      then ((fetch16 >>= result16 reg_u) >> tick 3)
      else byte_row reg_b fetch8 2 n

  unfoldable pub row_d0 : ℕ → Act M Unit
  row_d0 n = row_right direct 4 n

  unfoldable pub row_e0 : ℕ → Act M Unit
  row_e0 n = row_right indexed 4 n

  unfoldable pub row_f0 : ℕ → Act M Unit
  row_f0 n = row_right extended 5 n
