-- ===== src/Cpu/Keeps/Table.antt =====
-- `Do_Opcode` and the rounds of `MC6809Exec` of emulation/mc6809.cpp, for a property that every
-- assignment keeps.
use cutiecoco.Base.{ℕ, zero, suc, true, false, none, some, Option, Bool, ltb, if◌then◌else◌}
use cutiecoco.Base.Int.{ℤ}
use cutiecoco.Cpu.Bus.{Bus, State, Act}
use cutiecoco.Cpu.Registers.{Cpu}
use cutiecoco.Cpu.Exec.{
  advance_ramp, instruction_row, do_opcode, irq_or_wait, do_interrupts, finish, run_instruction,
  run_pending, run_unless_stopped, exec_round, exec_loop,
}
use cutiecoco.Cpu.Keeps.Steps.{Stable, Keeps, Keeps-modify, memory_rules}
use cutiecoco.Cpu.Keeps.Frames.{frame_rules}
use cutiecoco.Cpu.Keeps.Plain.{Keeps-row_00, Keeps-row_40, Keeps-row_50, Keeps-row_60, Keeps-row_70}
use cutiecoco.Cpu.Keeps.Operands.{
  Keeps-row_80, Keeps-row_90, Keeps-row_a0, Keeps-row_b0, Keeps-row_c0, Keeps-row_d0, Keeps-row_e0,
  Keeps-row_f0,
}
use cutiecoco.Cpu.Keeps.Control.{
  Restarts, Keeps-row_10, Keeps-row_20, Keeps-row_30_low, Keeps-row_30_high,
}

ruleset row_rules = (
  memory_rules, Keeps-row_00, Keeps-row_10, Keeps-row_20, Keeps-row_30_low, Keeps-row_30_high,
  Keeps-row_40, Keeps-row_50, Keeps-row_60, Keeps-row_70, Keeps-row_80, Keeps-row_90, Keeps-row_a0,
  Keeps-row_b0, Keeps-row_c0, Keeps-row_d0, Keeps-row_e0, Keeps-row_f0,
)

module _ {P : Cpu → Type 0} {M : Type 0} ⦃stable : Stable P⦄ ⦃bus : Bus M⦄ where
  Keeps-irq_or_wait : Keeps {M = M} P irq_or_wait
  unfolding irq_or_wait
  Keeps-irq_or_wait = search (memory_rules, frame_rules)

  pub Keeps-do_interrupts : Keeps {M = M} P do_interrupts
  unfolding do_interrupts
  Keeps-do_interrupts = search (memory_rules, frame_rules, Keeps-irq_or_wait) depth 30

  Keeps-finish : (n : ℕ) → Keeps {M = M} P (finish n)
  unfolding finish
  Keeps-finish n = search memory_rules

module _ {P : Cpu → Type 0} {M : Type 0} (cycle_for : ℕ) ⦃stable : Stable P⦄
    ⦃restarts : Restarts cycle_for P⦄ ⦃bus : Bus M⦄ where
  pub Keeps-instruction_row : (row n : ℕ) → Keeps {M = M} P (instruction_row cycle_for row n)
  unfolding instruction_row
  Keeps-instruction_row row n = search row_rules depth 30

  pub Keeps-do_opcode : Keeps {M = M} P (do_opcode cycle_for)
  unfolding do_opcode
  Keeps-do_opcode = search (memory_rules, Keeps-instruction_row)

  Keeps-advance_ramp : (n : ℕ) → Keeps {M = M} P (cutiecoco.Cpu.Bus.modify (advance_ramp n))
  unfolding advance_ramp
  Keeps-advance_ramp n = Keeps-modify _ (λ c. restarts.ramp _ c)

  Keeps-resume :
      Keeps {M = M} P (cutiecoco.Cpu.Bus.modify (λ c. record c { halted_ins_pending = Bool.false }))
  Keeps-resume = Keeps-modify _ restarts.resume

  Keeps-run_instruction : (n : ℕ) → Keeps {M = M} P (run_instruction cycle_for n)
  unfolding run_instruction
  Keeps-run_instruction n = search (memory_rules, Keeps-do_opcode, Keeps-advance_ramp) depth 10

  Keeps-run_pending : Keeps {M = M} P (run_pending cycle_for)
  unfolding run_pending
  Keeps-run_pending = search (memory_rules, Keeps-do_opcode, Keeps-resume, Keeps-finish)

  Keeps-run_unless_stopped : (n : ℕ) → Keeps {M = M} P (run_unless_stopped cycle_for n)
  unfolding run_unless_stopped
  Keeps-run_unless_stopped n =
      search (memory_rules, Keeps-do_interrupts, Keeps-run_instruction, Keeps-finish) depth 12

  pub Keeps-exec_round : (n : ℕ) → Keeps {M = M} P (exec_round cycle_for n)
  unfolding exec_round
  Keeps-exec_round n = search (memory_rules, Keeps-run_pending, Keeps-run_unless_stopped)

module _ (P : Cpu → Type 0) {M : Type 0} where
  choice :
      (b : Bool) (result : Option ℤ) (s' : State M) (rest done : Option ℤ × State M)
      → P s'.cpu
      → P rest.1.cpu
      → P done.1.cpu
      → P (if b then elim result [ none ↦ rest | some v ↦ (some v, s') ] else done).1.cpu
  choice true none s' rest done hs hr hd = hr
  choice true (some v) s' rest done hs hr hd = hs
  choice false result s' rest done hs hr hd = hd

module _ {P : Cpu → Type 0} {M : Type 0} (cycle_for : ℕ) ⦃stable : Stable P⦄
    ⦃restarts : Restarts cycle_for P⦄ ⦃bus : Bus M⦄ where
  pub Keeps-exec_loop : (fuel previous : ℕ) → Keeps {M = M} P (exec_loop fuel cycle_for previous)
  unfolding exec_loop
  Keeps-exec_loop zero previous = record { at = λ s h. h }
  Keeps-exec_loop (suc fuel) previous = record {
    at = λ s h.
        let (result, s') = exec_round cycle_for previous s in
        let next = (Keeps-exec_round {P = P} cycle_for previous).at s h in
        choice P (ltb s.cpu.cycles cycle_for) result s' (exec_loop fuel cycle_for s'.cpu.cycles s')
          (finish cycle_for s) next ((Keeps-exec_loop fuel s'.cpu.cycles).at s' next)
          ((Keeps-finish {P = P} cycle_for).at s h);
  }
