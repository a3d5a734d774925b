-- ===== src/Cpu/Rows/Control.antt =====
-- The rows 0x10, 0x20 and 0x30 of emulation/mc6809.cpp: branches, transfers, the stack, interrupts,
-- and `MC6809Reset`.
use Prim.Native.Nat.{bit_and, bit_or}
use cutiecoco.Base.{ℕ, ◌+◌, true, false, if◌then◌else◌, ◌==◌}
use cutiecoco.Base.Maps.{update}
use cutiecoco.Cpu.{set_cc_flags}
use cutiecoco.Cpu.Address.{indexed}
use cutiecoco.Cpu.Bus.{
  Bus, Act, pure, ◌>>=◌, ◌>>◌, update_codes, modify, gets, put, put_byte, tick, load16, fetch8,
}
use cutiecoco.Cpu.Operations.{lbra, lbsr, daa, change_codes, sex, abx, mul, branch}
use cutiecoco.Cpu.Transfers.{exg, tfr}
use cutiecoco.Cpu.Registers.{
  Cpu, halt_enabled, Reg16, reg_x, reg_y, reg_u, reg_s, reg_pc, reg_cc, get8, get16, set_pc,
  zero_code, irq_mask, firq_mask,
}
use cutiecoco.Cpu.Rows.Pages.{p2_opcode, p3_opcode}
use cutiecoco.Cpu.Stack.{psh, pul, rti, rts, swi1, vector_reset}

-- `CycleCounter=CycleFor; SyncWaiting=1;`.
abbrev pub wait_for_sync : ℕ → Cpu → Cpu
wait_for_sync cycle_for c = record c {
  cycles = cycle_for;
  lines = record c.lines { sync_waiting = true };
}

-- HALT stays on its own address for the debugger.
abbrev pub halt : Cpu → Cpu
halt c = record (set_pc (c.pc + 65535) c) { halted_ins_pending = true }

-- The registers of a reset.
unfoldable pub reset_registers : Cpu → Cpu
unfolding set_cc_flags
reset_registers c = record c {
  pc = 0;
  x = 0;
  y = 0;
  u = 0;
  s = 0;
  a = 0;
  b = 0;
  dp = 0;
  codes = update (update (set_cc_flags 0 c.codes) irq_mask true) firq_mask true;
  lines = record c.lines { sync_waiting = false };
}

module _ {M : Type 0} ⦃bus : Bus M⦄ where
  unfoldable pub map_type : ℕ → Act M Unit
  map_type t s = (tt, record s { memory = bus.set_map t s.memory })

  unfoldable pub cpu_reset : Act M Unit
  cpu_reset = do modify reset_registers; load16 vector_reset >>= put reg_pc; map_type 0

  unfoldable pub halt_instruction : Act M Unit
  halt_instruction = if halt_enabled then modify halt else tick 2

  unfoldable pub row_10 : ℕ → ℕ → Act M Unit
  row_10 cycle_for n =
      if n == 0
      then p2_opcode
      else if n == 1
      then p3_opcode
      else if n == 2
      then tick 2
      else if n == 3
      then modify (wait_for_sync cycle_for)
      else if n == 5
      then halt_instruction
      else if n == 6
      then lbra
      else if n == 7
      then lbsr
      else if n == 9
      then daa
      else if n == 10
      then change_codes bit_or
      else if n == 12
      then change_codes bit_and
      else if n == 13
      then sex
      else if n == 14
      then exg
      else if n == 15
      then tfr
      else pure tt

  unfoldable pub row_20 : ℕ → Act M Unit
  row_20 n = branch n

  -- Only LEAX and LEAY set code Z.
  unfoldable pub lea : Reg16 → Act M Unit
  lea r = do indexed >>= put r; tick 4

  unfoldable pub lea_index : Reg16 → Act M Unit
  lea_index r = do
    indexed >>= put r
    update_codes (λ c. update c.codes zero_code (get16 r c == 0))
    tick 4

  -- 0x30 to 0x37.
  unfoldable pub row_30_low : ℕ → Act M Unit
  row_30_low n =
      if n == 0
      then lea_index reg_x
      else if n == 1
      then lea_index reg_y
      else if n == 2
      then lea reg_s
      else if n == 3
      then lea reg_u
      else if n == 4
      then psh reg_s reg_u
      else if n == 5
      then pul reg_s reg_u
      else if n == 6
      then psh reg_u reg_s
      else pul reg_u reg_s

  unfoldable pub cwai : ℕ → Act M Unit
  cwai cycle_for = do
    operand ← fetch8
    codes ← gets (get8 reg_cc)
    put_byte reg_cc (bit_and codes operand)
    modify (wait_for_sync cycle_for)

  -- 0x38 to 0x3F; 0x3E is undocumented.
  unfoldable pub row_30_high : ℕ → ℕ → Act M Unit
  row_30_high cycle_for n =
      if n == 9
      then rts
      else if n == 10
      then abx
      else if n == 11
      then rti
      else if n == 12
      then cwai cycle_for
      else if n == 13
      then mul
      else if n == 14
      then cpu_reset
      else if n == 15
      then swi1
      else pure tt
