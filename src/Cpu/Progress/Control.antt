-- ===== src/Cpu/Progress/Control.antt =====
-- The rows 0x10, 0x20 and 0x30 of emulation/mc6809.cpp move the cycle counter, SYNC and CWAI to the
-- end of the slice.
use cutiecoco.Base.{ℕ, suc, ◌≤◌, true}
use cutiecoco.Cpu.Bus.{Bus, modify}
use cutiecoco.Cpu.Registers.{Reg16}
use cutiecoco.Cpu.Rows.Control.{
  wait_for_sync, halt_instruction, row_10, row_20, lea, lea_index, row_30_low, cwai, row_30_high,
}
use cutiecoco.Cpu.Keeps.Steps.{memory_rules}
use cutiecoco.Cpu.Keeps.Modes.{mode_rules}
use cutiecoco.Cpu.Progress.Clock.{clock-Stable, Passes, passing_rules}
use cutiecoco.Cpu.Progress.Timed.{control_timed, stack_timed}
use cutiecoco.Cpu.Progress.Bodies.{passing_bodies}

module _ {M : Type 0} {k : ℕ} ⦃bus : Bus M⦄ where
  Passes-halt_instruction : Passes {M = M} k true halt_instruction
  unfolding halt_instruction
  Passes-halt_instruction = search passing_rules

  pub Passes-row_20 : (n : ℕ) → Passes {M = M} k true (row_20 n)
  unfolding row_20
  Passes-row_20 n = search passing_bodies

  Passes-lea : (r : Reg16) → Passes {M = M} k true (lea r)
  unfolding lea
  Passes-lea r = search (passing_rules, mode_rules)

  Passes-lea_index : (r : Reg16) → Passes {M = M} k true (lea_index r)
  unfolding lea_index
  Passes-lea_index r = search (passing_rules, mode_rules) depth 10

  pub Passes-row_30_low : (n : ℕ) → Passes {M = M} k true (row_30_low n)
  unfolding row_30_low
  Passes-row_30_low n =
      search (passing_rules, passing_bodies, Passes-lea, Passes-lea_index) depth 20

module _ {M : Type 0} {k : ℕ} (cycle_for : ℕ) (within : suc k ≤ cycle_for) ⦃bus : Bus M⦄ where
  Passes-wait : Passes {M = M} k true (modify (wait_for_sync cycle_for))
  unfolding modify
  Passes-wait = record { at = λ e s h. within }

  Passes-cwai : Passes {M = M} k true (cwai cycle_for)
  unfolding cwai
  Passes-cwai = search (passing_rules, memory_rules, Passes-wait) depth 10

  pub Passes-row_30_high : (n : ℕ) → Passes {M = M} k (stack_timed n) (row_30_high cycle_for n)
  unfolding row_30_high
  Passes-row_30_high n = search (passing_rules, passing_bodies, Passes-cwai) depth 20

  pub Passes-row_10 : (n : ℕ) → Passes {M = M} k (control_timed n) (row_10 cycle_for n)
  unfolding row_10
  Passes-row_10 n =
      search (passing_rules, passing_bodies, Passes-wait, Passes-halt_instruction) depth 20
