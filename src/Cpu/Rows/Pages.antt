-- ===== src/Cpu/Rows/Pages.antt =====
-- `P2_Opcode` and `P3_Opcode` of emulation/mc6809.cpp: the instructions behind 0x10 and 0x11.
use cutiecoco.Base.{ℕ, ◌/◌, ◌%◌, if◌then◌else◌, ◌==◌}
use cutiecoco.Cpu.Address.{direct, indexed, extended}
use cutiecoco.Cpu.Bus.{Bus, Act, pure, ◌>>=◌, ◌>>◌, modify, tick, load16, fetch8, fetch16}
use cutiecoco.Cpu.Operations.{compare16, result16, store_word, long_branch}
use cutiecoco.Cpu.Registers.{Cpu, break_enabled, Reg16, reg_d, reg_y, reg_u, reg_s}
use cutiecoco.Cpu.Stack.{swi_unmasked, vector_swi2, vector_swi3}

-- `PendingInterupts=0`, before `Debugger.Halt()`.
abbrev pub stop : Cpu → Cpu
stop c = record c { lines = record c.lines { pending_interrupts = 0 } }

module _ {M : Type 0} ⦃bus : Bus M⦄ where
  -- The columns of the two pages that are alike in every row.
  unfoldable pub compare_word : Act M ℕ → Reg16 → ℕ → Act M Unit
  compare_word operand r cycles = (operand >>= compare16 r) >> tick cycles

  unfoldable pub load_word : Act M ℕ → Reg16 → ℕ → Act M Unit
  load_word operand r cycles = (operand >>= result16 r) >> tick cycles

  unfoldable pub store_at : Act M ℕ → Reg16 → ℕ → Act M Unit
  store_at mode r cycles = (mode >>= store_word r) >> tick cycles

  -- 0x21 to 0x2F; only LBHS takes six cycles.
  unfoldable pub page2_branch : ℕ → Act M Unit
  page2_branch n = if n == 0 then pure tt else long_branch n (if n == 4 then 6 else 5)

  unfoldable pub page2_left : ℕ → Act M Unit
  page2_left op =
      if op == 0x83
      then compare_word fetch16 reg_d 5
      else if op == 0x8c
      then compare_word fetch16 reg_y 5
      else if op == 0x8e
      then load_word fetch16 reg_y 5
      else if op == 0x93
      then compare_word (direct >>= load16) reg_d 7
      else if op == 0x9c
      then compare_word (direct >>= load16) reg_y 7
      else if op == 0x9e
      then load_word (direct >>= load16) reg_y 6
      else if op == 0x9f
      then store_at direct reg_y 6
      else if op == 0xa3
      then compare_word (indexed >>= load16) reg_d 7
      else if op == 0xac
      then compare_word (indexed >>= load16) reg_y 7
      else if op == 0xae
      then load_word (indexed >>= load16) reg_y 6
      else if op == 0xaf
      then store_at indexed reg_y 6
      else if op == 0xb3
      then compare_word (extended >>= load16) reg_d 8
      else if op == 0xbc
      then compare_word (extended >>= load16) reg_y 8
      else if op == 0xbe
      then load_word (extended >>= load16) reg_y 7
      else if op == 0xbf
      then store_at extended reg_y 7
      else pure tt

  unfoldable pub page2_right : ℕ → Act M Unit
  page2_right op =
      if op == 0xce
      then load_word fetch16 reg_s 4
      else if op == 0xde
      then load_word (direct >>= load16) reg_s 6
      else if op == 0xdf
      then store_at direct reg_s 6
      else if op == 0xee
      then load_word (indexed >>= load16) reg_s 6
      else if op == 0xef
      then store_at indexed reg_s 6
      else if op == 0xfe
      then load_word (extended >>= load16) reg_s 7
      else if op == 0xff
      then store_at extended reg_s 7
      else pure tt

  unfoldable pub page2 : ℕ → Act M Unit
  page2 op =
      if op / 16 == 2
      then page2_branch (op % 16)
      else if op == 0x3f
      then swi_unmasked vector_swi2
      else if op / 64 == 2
      then page2_left op
      else page2_right op

  unfoldable pub p2_opcode : Act M Unit
  p2_opcode = fetch8 >>= page2

  -- BREAK stops only if the debugger asks for it.
  unfoldable pub break_point : Act M Unit
  break_point = if break_enabled then modify stop else tick 4

  unfoldable pub page3 : ℕ → Act M Unit
  page3 op =
      if op == 0x3e
      then break_point
      else if op == 0x3f
      then swi_unmasked vector_swi3
      else if op == 0x83
      then compare_word fetch16 reg_u 5
      else if op == 0x8c
      then compare_word fetch16 reg_s 5
      else if op == 0x93
      then compare_word (direct >>= load16) reg_u 7
      else if op == 0x9c
      then compare_word (direct >>= load16) reg_s 7
      else if op == 0xa3
      then compare_word (indexed >>= load16) reg_u 7
      else if op == 0xac
      then compare_word (indexed >>= load16) reg_s 7
      else if op == 0xb3
      then compare_word (extended >>= load16) reg_u 8
      else if op == 0xbc
      then compare_word (extended >>= load16) reg_s 8
      else pure tt

  unfoldable pub p3_opcode : Act M Unit
  p3_opcode = fetch8 >>= page3
