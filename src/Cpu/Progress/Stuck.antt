-- ===== src/Cpu/Progress/Stuck.antt =====
-- The opcode 0x3E of emulation/mc6809.cpp calls `MC6809Reset` and takes no cycles: where the reset
-- vector leads back to it, the loop of `MC6809Exec` does not end.
pub mod OnBoard
use cutiecoco.Base.{
  ℕ, zero, suc, ◌+◌, ◌-◌, ◌*◌, ◌/◌, ◌%◌, ◌<◌, ◌≡◌, refl, ◌∙◌, ap, sym, subst, true, false, ltb,
  if◌then◌else◌, arith, [], none,
}
use cutiecoco.Base.Bits.{u16}
use cutiecoco.Cpu.Bus.{Bus, State, ◌>>=◌, pure, gets, modify, fetch8, load8, load16, update_word}
use cutiecoco.Cpu.Registers.{Cpu, set16, get16}
use cutiecoco.Cpu.Rows.Control.{row_30_high, cpu_reset, reset_registers, map_type}
use cutiecoco.Cpu.Exec.{
  advance_ramp, instruction_row, do_opcode, do_interrupts, run_instruction, run_unless_stopped,
  exec_round, exec_loop, cpu_exec,
}
use cutiecoco.Cpu.Stack.{vector_reset}

-- A processor at an address at the start of a slice, that nothing interrupts or stops.
abbrev pub quiet : {M : Type 0} → ℕ → Cpu → M → State M
quiet at c m = record {
  cpu = record c {
    pc = at;
    cycles = 0;
    halted_ins_pending = false;
    breakpoints = [];
    lines = record c.lines { pending_interrupts = 0; sync_waiting = false };
  };
  memory = m;
}

-- States of a memory in which the reset vector leads to the opcode 0x3E, and which neither a read
-- nor the map type of a reset leaves.
pub record Trap (M : Type 0) ⦃bus : Bus M⦄ : Type 1 where
  pub target : ℕ
  pub In : M → Type 0
  pub target-lt : target < 65536
  pub vector_high : (m : M) → In m → (bus.read8 vector_reset m).0 ≡ target / 256
  pub vector_low : (m : M) → In m → (bus.read8 (vector_reset + 1) m).0 ≡ target % 256
  pub opcode : (m : M) → In m → (bus.read8 target m).0 ≡ 0x3e
  pub after_read : (address : ℕ) (m : M) → In m → In (bus.read8 address m).1
  pub after_map : (m : M) → In m → In (bus.set_map 0 m)

module _ {M : Type 0} ⦃bus : Bus M⦄ (trap : Trap M) where
  open trap use {target, In}

  -- The memory after the opcode and the vector are read.
  abbrev fetched : M → M
  fetched m = (bus.read8 (vector_reset + 1) (bus.read8 vector_reset (bus.read8 target m).1).1).1

  abbrev restarted : ℕ → Cpu → Cpu
  restarted previous c = record (reset_registers c) {
    ramp_clock = if ltb c.ramp_clock 0xffff then c.ramp_clock + (0 - previous) else c.ramp_clock;
  }

  reset_round :
      (cycle_for previous : ℕ) (c : Cpu) (m : M)
      → In m
      → exec_round cycle_for previous (quiet target c m)
        ≡ (none, quiet target (restarted previous c) (bus.set_map 0 (fetched m)))
  unfolding exec_round run_unless_stopped run_instruction do_interrupts do_opcode ◌>>=◌ gets modify
      fetch8 load8 load16 update_word get16 set16 pure instruction_row row_30_high cpu_reset
      reset_registers map_type advance_ramp
  reset_round cycle_for previous c m h =
      rw
        (
          at_target,
          trap.opcode m h,
          trap.vector_high _ (trap.after_read target m h),
          trap.vector_low _ (trap.after_read vector_reset _ (trap.after_read target m h)),
          joined,
        )
        refl
    where
      at_target : u16 target ≡ target
      at_target = omega (arith, trap.target-lt)

      joined : u16 (target / 256 * 256 + target % 256) ≡ target
      joined = omega (arith, trap.target-lt)

  reset_loop :
      (fuel cycle_for previous : ℕ) (c : Cpu) (m : M)
      → 0 < cycle_for
      → In m
      → (exec_loop fuel cycle_for previous (quiet target c m)).0 ≡ none
  unfolding exec_loop
  reset_loop zero cycle_for previous c m lt h = refl
  reset_loop (suc fuel) cycle_for previous c m lt h =
      let at_round = reset_round cycle_for previous c m h in
      rw (ap (λ r. r.0) at_round, ap (λ r. r.1) at_round, positive)
        (reset_loop fuel cycle_for 0 (restarted previous c) (bus.set_map 0 (fetched m)) lt inside)
    where
      positive : ltb 0 cycle_for ≡ true
      positive = ground arith

      inside : In (bus.set_map 0 (fetched m))
      inside = trap.after_map _ (
          trap.after_read (vector_reset + 1) _
            (trap.after_read vector_reset _ (trap.after_read target m h)))

  -- No fuel is enough for a slice that starts at the opcode.
  pub cpu_exec-reset :
      (fuel cycle_for : ℕ) (c : Cpu) (m : M)
      → 0 < cycle_for
      → In m
      → (cpu_exec fuel cycle_for (quiet target c m)).0 ≡ none
  unfolding cpu_exec ◌>>=◌ modify
  cpu_exec-reset fuel cycle_for c m lt h = reset_loop fuel cycle_for 0 c m lt h
