-- ===== src/Cpu/Exec.antt =====
-- `Do_Opcode` and the loop of `MC6809Exec` of emulation/mc6809.cpp. Tracing, which the debugger of
-- the repository never starts, is left out.
use cutiecoco.Base.{ℕ, zero, suc, ◌+◌, ◌-◌, ◌/◌, ◌%◌, Bool, true, false, if◌then◌else◌, ◌==◌, ltb}
use cutiecoco.Base.{List, [], ◌∷◌, Option, none, some}
use cutiecoco.Base.Int.{ℤ, pos, negsuc}
use cutiecoco.Base.Bits.{bit}
use cutiecoco.Cpu.{Interrupts}
use cutiecoco.Cpu.Bus.{Bus, Act, pure, ◌>>=◌, ◌>>◌, modify, update_lines, gets, fetch8}
use cutiecoco.Cpu.Registers.{Cpu, is_halted, is_stepping}
use cutiecoco.Cpu.Stack.{cpu_irq, cpu_firq, cpu_nmi, when}
use cutiecoco.Cpu.Rows.Memory.{row_00, row_40, row_50, row_60, row_70}
use cutiecoco.Cpu.Rows.Control.{row_10, row_20, row_30_low, row_30_high}
use cutiecoco.Cpu.Rows.Accumulator.{row_80, row_90, row_a0, row_b0, row_c0, row_d0, row_e0, row_f0}

-- `CycleFor - CycleCounter`, which `MC6809Exec` returns.
abbrev pub balance : ℕ → ℕ → ℤ
balance cycle_for cycles =
    if ltb cycle_for cycles then negsuc (cycles - cycle_for - 1) else pos (cycle_for - cycles)

abbrev pub elem : ℕ → List ℕ → Bool
elem n [] = false
elem n (x ∷ xs) = if n == x then true else elem n xs

-- The advance of the ramp clock by the cycles since the last instruction.
unfoldable pub advance_ramp : ℕ → Cpu → Cpu
advance_ramp previous c = record c {
  ramp_clock =
      if ltb c.ramp_clock 0xffff then c.ramp_clock + (c.cycles - previous) else c.ramp_clock;
}

abbrev pub postpone : Interrupts → Interrupts
postpone l = record l { irq_waiter = l.irq_waiter - 1 }

module _ {M : Type 0} ⦃bus : Bus M⦄ where
  unfoldable pub instruction_row : ℕ → ℕ → ℕ → Act M Unit
  instruction_row cycle_for row n =
      if row == 0
      then row_00 n
      else if row == 1
      then row_10 cycle_for n
      else if row == 2
      then row_20 n
      else if row == 3
      then (if ltb n 8 then row_30_low n else row_30_high cycle_for n)
      else if row == 4
      then row_40 n
      else if row == 5
      then row_50 n
      else if row == 6
      then row_60 n
      else if row == 7
      then row_70 n
      else if row == 8
      then row_80 n
      else if row == 9
      then row_90 n
      else if row == 10
      then row_a0 n
      else if row == 11
      then row_b0 n
      else if row == 12
      then row_c0 n
      else if row == 13
      then row_d0 n
      else if row == 14
      then row_e0 n
      else row_f0 n

  unfoldable pub do_opcode : ℕ → Act M Unit
  do_opcode cycle_for = do op ← fetch8; instruction_row cycle_for (op / 16) (op % 16)

  unfoldable pub irq_or_wait : Act M Unit
  irq_or_wait = do
    waiter ← gets (λ c. c.lines.irq_waiter)
    (if waiter == 0 then cpu_irq else update_lines postpone)

  -- The pending bits are read again for each line.
  unfoldable pub do_interrupts : Act M Unit
  do_interrupts = do
    nmi ← gets (λ c. bit c.lines.pending_interrupts 2)
    when nmi cpu_nmi
    firq ← gets (λ c. bit c.lines.pending_interrupts 1)
    when firq cpu_firq
    irq ← gets (λ c. bit c.lines.pending_interrupts 0)
    when irq irq_or_wait

  -- The end of a slice that returns what is left of it.
  unfoldable pub finish : ℕ → Act M (Option ℤ)
  finish cycle_for = gets (λ c. some (balance cycle_for c.cycles))

  unfoldable pub run_instruction : ℕ → ℕ → Act M (Option ℤ)
  run_instruction cycle_for previous = do
    do_opcode cycle_for
    modify (advance_ramp previous)
    pure none

  unfoldable pub run_pending : ℕ → Act M (Option ℤ)
  run_pending cycle_for = do
    do_opcode cycle_for
    modify (λ c. record c { halted_ins_pending = false })
    finish cycle_for

  unfoldable pub run_unless_stopped : ℕ → ℕ → Act M (Option ℤ)
  run_unless_stopped cycle_for previous = do
    do_interrupts
    waiting ← gets (λ c. c.lines.sync_waiting)
    at_breakpoint ← gets (λ c. elem c.pc c.breakpoints)
    (if waiting
        then pure (some (pos 0))
        else if at_breakpoint
        then finish cycle_for
        else run_instruction cycle_for previous)

  -- One round of the loop: a value to return, or none to go on.
  unfoldable pub exec_round : ℕ → ℕ → Act M (Option ℤ)
  exec_round cycle_for previous =
      if is_halted
      then finish cycle_for
      else if is_stepping
      then (do_opcode cycle_for >> finish cycle_for)
      else (gets (λ c. c.halted_ins_pending) >>= λ pending.
          if pending then run_pending cycle_for else run_unless_stopped cycle_for previous)

  -- The loop; `none` when the fuel runs out.
  unfoldable pub exec_loop : ℕ → ℕ → ℕ → Act M (Option ℤ)
  exec_loop zero cycle_for previous s = (none, s)
  exec_loop (suc fuel) cycle_for previous s =
      let (result, s') = exec_round cycle_for previous s in
      if ltb s.cpu.cycles cycle_for
      then elim result [ none ↦ exec_loop fuel cycle_for s'.cpu.cycles s' | some v ↦ (some v, s') ]
      else finish cycle_for s

  unfoldable pub cpu_exec : ℕ → ℕ → Act M (Option ℤ)
  cpu_exec fuel cycle_for = do modify (λ c. record c { cycles = 0 }); exec_loop fuel cycle_for 0
