-- ===== src/Cpu/Rows/Memory.antt =====
-- The rows of emulation/mc6809.cpp that read, change and write one byte: opcodes 0x00, 0x60 and 0x70
-- on memory, 0x40 and 0x50 on an accumulator.
use cutiecoco.Base.{ℕ, if◌then◌else◌, ◌==◌}
use cutiecoco.Cpu.Address.{direct, indexed, extended}
use cutiecoco.Cpu.Alu.{neg8, com8, lsr8, ror8, asr8, asl8, rol8, dec8, inc8, tst8, clr8}
use cutiecoco.Cpu.Bus.{Bus, Act, pure, ◌>>=◌, ◌>>◌, put, tick}
use cutiecoco.Cpu.Operations.{modify_memory, test_memory, clear_memory, modify_accumulator}
use cutiecoco.Cpu.Registers.{Reg8, reg_a, reg_b, reg_pc}

module _ {M : Type 0} ⦃bus : Bus M⦄ where
  unfoldable pub jump : ℕ → ℕ → Act M Unit
  jump cycles target = put reg_pc target >> tick cycles

  -- A row by the low nibble of the opcode; the others do nothing, and read no operand.
  unfoldable pub memory_row : Act M ℕ → ℕ → ℕ → ℕ → Act M Unit
  memory_row mode cycles jump_cycles n =
      if n == 0
      then (mode >>= λ at. modify_memory neg8 at cycles)
      else if n == 3
      then (mode >>= λ at. modify_memory com8 at cycles)
      else if n == 4
      then (mode >>= λ at. modify_memory lsr8 at cycles)
      else if n == 6
      then (mode >>= λ at. modify_memory ror8 at cycles)
      else if n == 7
      then (mode >>= λ at. modify_memory asr8 at cycles)
      else if n == 8
      then (mode >>= λ at. modify_memory asl8 at cycles)
      else if n == 9
      then (mode >>= λ at. modify_memory rol8 at cycles)
      else if n == 10
      then (mode >>= λ at. modify_memory dec8 at cycles)
      else if n == 12
      then (mode >>= λ at. modify_memory inc8 at cycles)
      else if n == 13
      then (mode >>= λ at. test_memory at cycles)
      else if n == 14
      then (mode >>= jump jump_cycles)
      else if n == 15
      then (mode >>= λ at. clear_memory at cycles)
      else pure tt

  unfoldable pub row_00 : ℕ → Act M Unit
  row_00 n = memory_row direct 6 3 n

  unfoldable pub row_60 : ℕ → Act M Unit
  row_60 n = memory_row indexed 6 3 n

  unfoldable pub row_70 : ℕ → Act M Unit
  row_70 n = memory_row extended 7 4 n

  unfoldable pub inherent_row : Reg8 → ℕ → Act M Unit
  inherent_row r n =
      if n == 0
      then modify_accumulator neg8 r
      else if n == 3
      then modify_accumulator com8 r
      else if n == 4
      then modify_accumulator lsr8 r
      else if n == 6
      then modify_accumulator ror8 r
      else if n == 7
      then modify_accumulator asr8 r
      else if n == 8
      then modify_accumulator asl8 r
      else if n == 9
      then modify_accumulator rol8 r
      else if n == 10
      then modify_accumulator dec8 r
      else if n == 12
      then modify_accumulator inc8 r
      else if n == 13
      then modify_accumulator tst8 r
      else if n == 15
      then modify_accumulator clr8 r
      else pure tt

  unfoldable pub row_40 : ℕ → Act M Unit
  row_40 n = inherent_row reg_a n

  unfoldable pub row_50 : ℕ → Act M Unit
  row_50 n = inherent_row reg_b n
