-- ===== src/Cpu/Keeps/Control.antt =====
-- The rows 0x10, 0x20 and 0x30 of emulation/mc6809.cpp, for a property that every assignment keeps.
-- SYNC, CWAI and the reset write several registers at once.
use cutiecoco.Base.{ℕ, Bool}
use cutiecoco.Cpu.Bus.{Bus}
use cutiecoco.Cpu.Registers.{Cpu, Reg16}
use cutiecoco.Cpu.Rows.Control.{
  wait_for_sync, reset_registers, map_type, cpu_reset, halt_instruction, row_10, row_20, lea,
  lea_index, row_30_low, cwai, row_30_high,
}
use cutiecoco.Cpu.Keeps.Steps.{Stable, Keeps, Keeps-modify, memory_rules}
use cutiecoco.Cpu.Keeps.Modes.{mode_rules}
use cutiecoco.Cpu.Keeps.Frames.{frame_rules}
use cutiecoco.Cpu.Keeps.Bodies.{body_rules}
use cutiecoco.Cpu.Keeps.Moves.{Keeps-exg, Keeps-tfr}
use cutiecoco.Cpu.Keeps.Pages.{Keeps-p2_opcode, Keeps-p3_opcode}

-- The steps of a slice of `cycle_for` cycles that are not single assignments.
pub record Restarts (cycle_for : ℕ) (P : Cpu → Type 0) : Type 0 where
  pub wait : (c : Cpu) → P c → P (wait_for_sync cycle_for c)
  pub reset : (c : Cpu) → P c → P (reset_registers c)
  pub ramp : (v : ℕ) (c : Cpu) → P c → P (record c { ramp_clock = v })
  pub resume : (c : Cpu) → P c → P (record c { halted_ins_pending = Bool.false })

module _ {P : Cpu → Type 0} {M : Type 0} ⦃stable : Stable P⦄ ⦃bus : Bus M⦄ where
  Keeps-map_type : (n : ℕ) → Keeps {M = M} P (map_type n)
  unfolding map_type
  Keeps-map_type n = record { at = λ s h. h }

  Keeps-halt_instruction : Keeps {M = M} P halt_instruction
  unfolding halt_instruction
  Keeps-halt_instruction = search memory_rules

  pub Keeps-row_20 : (n : ℕ) → Keeps {M = M} P (row_20 n)
  unfolding row_20
  Keeps-row_20 n = search body_rules

  Keeps-lea : (r : Reg16) → Keeps {M = M} P (lea r)
  unfolding lea
  Keeps-lea r = search mode_rules

  Keeps-lea_index : (r : Reg16) → Keeps {M = M} P (lea_index r)
  unfolding lea_index
  Keeps-lea_index r = search mode_rules depth 10

  pub Keeps-row_30_low : (n : ℕ) → Keeps {M = M} P (row_30_low n)
  unfolding row_30_low
  Keeps-row_30_low n = search (memory_rules, frame_rules, Keeps-lea, Keeps-lea_index) depth 20

module _ {P : Cpu → Type 0} {M : Type 0} (cycle_for : ℕ) ⦃stable : Stable P⦄
    ⦃restarts : Restarts cycle_for P⦄ ⦃bus : Bus M⦄ where
  Keeps-cpu_reset : Keeps {M = M} P cpu_reset
  unfolding cpu_reset
  Keeps-cpu_reset = search (memory_rules, Keeps-modify, Keeps-map_type, restarts.reset)

  Keeps-cwai : Keeps {M = M} P (cwai cycle_for)
  unfolding cwai
  Keeps-cwai = search (memory_rules, Keeps-modify, restarts.wait) depth 10

  pub Keeps-row_30_high : (n : ℕ) → Keeps {M = M} P (row_30_high cycle_for n)
  unfolding row_30_high
  Keeps-row_30_high n = search (frame_rules, body_rules, Keeps-cpu_reset, Keeps-cwai) depth 20

  Keeps-wait : Keeps {M = M} P (cutiecoco.Cpu.Bus.modify (wait_for_sync cycle_for))
  Keeps-wait = Keeps-modify _ restarts.wait

  pub Keeps-row_10 : (n : ℕ) → Keeps {M = M} P (row_10 cycle_for n)
  unfolding row_10
  Keeps-row_10 n =
      search
        (
          body_rules, Keeps-exg, Keeps-tfr, Keeps-wait, Keeps-halt_instruction, Keeps-p2_opcode,
          Keeps-p3_opcode,
        )
        depth 20
