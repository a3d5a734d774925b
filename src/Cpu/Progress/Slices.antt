-- ===== src/Cpu/Progress/Slices.antt =====
-- The loop of `MC6809Exec` of emulation/mc6809.cpp ends, if the program runs into instructions that
-- the processor has.
use cutiecoco.Base.{
  ℕ, zero, suc, ◌+◌, ◌≤◌, ◌≡◌, ◌≢◌, refl, Bool, true, false, ltb, if◌then◌else◌, arith, Option,
  none, some,
}
use cutiecoco.Base.Int.{ℤ}
use cutiecoco.Cpu.Bus.{Bus, State, Act, ◌>>=◌, pure, gets, modify}
use cutiecoco.Cpu.Exec.{
  elem, advance_ramp, do_interrupts, run_instruction, run_pending, run_unless_stopped, exec_round,
  exec_loop, finish, cpu_exec,
}
use cutiecoco.Cpu.Keeps.Table.{Keeps-do_interrupts}
use cutiecoco.Cpu.Progress.Clock.{AtLeast, clock-Stable}
use cutiecoco.Cpu.Progress.Timed.{timed_at}
use cutiecoco.Cpu.Progress.Instructions.{do_opcode-AtLeast}

-- A round that does not end the slice moves the counter.
pub record MovesOn {M : Type 0} (k : ℕ) (r : Option ℤ × State M) : Type 0 where
  pub at : r.0 ≡ none → suc k ≤ r.1.cpu.cycles

-- A set of states that the rounds do not leave, and in which the next instruction takes cycles.
pub record Program {M : Type 0} ⦃bus : Bus M⦄ (cycle_for : ℕ) (Runs : State M → Type 0)
    : Type 0 where
  pub timed : (s : State M) → Runs s → timed_at (do_interrupts s).1 ≡ true
  pub stays : (previous : ℕ) (s : State M) → Runs s → Runs (exec_round cycle_for previous s).1

module _ {M : Type 0} {k : ℕ} where
  if-MovesOn :
      (b : Bool) (m n : Act M (Option ℤ)) (s : State M)
      → MovesOn k (m s)
      → MovesOn k (n s)
      → MovesOn k ((if b then m else n) s)
  if-MovesOn true m n s hm hn = hm
  if-MovesOn false m n s hm hn = hn

  pure-MovesOn : (v : ℤ) (s : State M) → MovesOn k (pure (some v) s)
  unfolding pure
  pure-MovesOn v s = record { at = λ e. ground arith }

  module _ ⦃bus : Bus M⦄ (cycle_for : ℕ) where
    finish-MovesOn : (s : State M) → MovesOn k (finish cycle_for s)
    unfolding finish gets
    finish-MovesOn s = record { at = λ e. ground arith }

    pending-MovesOn : (s : State M) → MovesOn k (run_pending cycle_for s)
    unfolding run_pending ◌>>=◌
    pending-MovesOn s = finish-MovesOn _

    instruction-MovesOn :
        (previous : ℕ) (s : State M)
        → suc k ≤ cycle_for
        → AtLeast k s.cpu
        → timed_at s ≡ true
        → MovesOn k (run_instruction cycle_for previous s)
    unfolding run_instruction ◌>>=◌ modify pure advance_ramp
    instruction-MovesOn previous s within h t = record {
      at = λ e. do_opcode-AtLeast cycle_for within s h t;
    }

    round-MovesOn :
        (previous : ℕ) (s : State M)
        → suc k ≤ cycle_for
        → AtLeast k s.cpu
        → timed_at (do_interrupts s).1 ≡ true
        → MovesOn k (exec_round cycle_for previous s)
    unfolding exec_round run_unless_stopped ◌>>=◌ gets
    round-MovesOn previous s within h t =
        let s' = (do_interrupts s).1 in
        if-MovesOn s.cpu.halted_ins_pending _ _ s (pending-MovesOn s) (
          if-MovesOn s'.cpu.lines.sync_waiting _ _ s' (pure-MovesOn _ s') (
            if-MovesOn (elem s'.cpu.pc s'.cpu.breakpoints) _ _ s' (finish-MovesOn s') (
              instruction-MovesOn previous s' within ((Keeps-do_interrupts {P = AtLeast k}).at s h)
                t)))

module _ {M : Type 0} where
  ends-choice :
      (b : Bool) (result : Option ℤ) (s' : State M) (rest done : Option ℤ × State M)
      → (b ≡ true → result ≡ none → rest.0 ≢ none)
      → done.0 ≢ none
      → (if b then elim result [ none ↦ rest | some v ↦ (some v, s') ] else done).0 ≢ none
  ends-choice true none s' rest done hr hd = hr refl refl
  ends-choice true (some v) s' rest done hr hd = λ e. ground arith
  ends-choice false result s' rest done hr hd = hd

module _ {M : Type 0} ⦃bus : Bus M⦄ (cycle_for : ℕ) (Runs : State M → Type 0)
    (program : Program cycle_for Runs) where
  finish-ends : (s : State M) → (finish cycle_for s).0 ≢ none
  unfolding finish gets
  finish-ends s = λ e. ground arith

  exec_loop-ends :
      (fuel previous : ℕ) (s : State M)
      → Runs s
      → cycle_for ≤ fuel + s.cpu.cycles
      → (exec_loop (suc fuel) cycle_for previous s).0 ≢ none
  unfolding exec_loop
  exec_loop-ends zero previous s h enough =
      ends-choice (ltb s.cpu.cycles cycle_for) (exec_round cycle_for previous s).0 _ _ _
        (λ b e. ground arith) (finish-ends s)
  exec_loop-ends (suc fuel) previous s h enough =
      let s' = (exec_round cycle_for previous s).1 in
      ends-choice (ltb s.cpu.cycles cycle_for) (exec_round cycle_for previous s).0 s'
        (exec_loop (suc fuel) cycle_for s'.cpu.cycles s') (finish cycle_for s)
        (λ b e.
          let next =
            (round-MovesOn cycle_for previous s (less b) (omega arith) (program.timed s h)).at e in
          exec_loop-ends fuel s'.cpu.cycles s' (program.stays previous s h) (omega arith))
        (finish-ends s)
    where
      less : ltb s.cpu.cycles cycle_for ≡ true → suc s.cpu.cycles ≤ cycle_for
      less b = ground arith

  -- A slice of `cycle_for` cycles ends within as many rounds and one more, if the state of the start
  -- is one of a program that runs into instructions with a `case`.
  pub cpu_exec-ends :
      (s : State M)
      → Runs (record s { cpu = record s.cpu { cycles = 0 } })
      → (cpu_exec (suc cycle_for) cycle_for s).0 ≢ none
  unfolding cpu_exec ◌>>=◌ modify
  cpu_exec-ends s h = exec_loop-ends cycle_for 0 _ h (omega arith)
