-- ===== src/Cpu/Progress/Bodies.antt =====
-- The bodies of the instructions of emulation/mc6809.cpp move the cycle counter.
use cutiecoco.Base.{ℕ, ◌≡◌, true, ltb}
use cutiecoco.Cpu.Bus.{Bus}
use cutiecoco.Cpu.Registers.{Reg16, Reg8}
use cutiecoco.Cpu.Alu.{Unary}
use cutiecoco.Cpu.Keeps.Steps.{memory_rules}
use cutiecoco.Cpu.Progress.Clock.{clock-Stable, Passes, passing_rules, Passes-before}
use cutiecoco.Cpu.Stack.{psh, pul, call, swi1, swi_unmasked, rti, rts}
use cutiecoco.Cpu.Operations.{
  modify_memory, test_memory, clear_memory, modify_accumulator, branch, long_branch, lbra, lbsr,
  bsr, daa, change_codes, sex, abx, mul,
}
use cutiecoco.Cpu.Transfers.{exg, tfr}
use cutiecoco.Cpu.Keeps.Frames.{frame_rules}
use cutiecoco.Cpu.Keeps.Bodies.{Keeps-put_mul_codes}
use cutiecoco.Cpu.Keeps.Moves.{Keeps-exchange, Keeps-transfer}

module _ {M : Type 0} {k : ℕ} ⦃bus : Bus M⦄ where
  pub Passes-psh : (r r' : Reg16) → Passes {M = M} k true (psh r r')
  unfolding psh
  Passes-psh r r' = search (passing_rules, memory_rules, frame_rules) depth 30

  pub Passes-pul : (r r' : Reg16) → Passes {M = M} k true (pul r r')
  unfolding pul
  Passes-pul r r' = search (passing_rules, memory_rules, frame_rules) depth 30

  pub Passes-call : (n n' : ℕ) → ltb 0 n' ≡ true → Passes {M = M} k true (call n n')
  unfolding call
  Passes-call n n' h0 = search (passing_rules, memory_rules, frame_rules) depth 30

  pub Passes-swi1 : Passes {M = M} k true swi1
  unfolding swi1
  Passes-swi1 = search (passing_rules, memory_rules, frame_rules, Passes-before) depth 30

  pub Passes-swi_unmasked : (n : ℕ) → Passes {M = M} k true (swi_unmasked n)
  unfolding swi_unmasked
  Passes-swi_unmasked n = search (passing_rules, memory_rules, frame_rules) depth 30

  pub Passes-rti : Passes {M = M} k true rti
  unfolding rti
  Passes-rti = search (passing_rules, memory_rules, frame_rules, Passes-before) depth 30

  pub Passes-rts : Passes {M = M} k true rts
  unfolding rts
  Passes-rts = search (passing_rules, memory_rules, frame_rules) depth 30

  pub Passes-modify_memory :
      (f : Unary) (n n' : ℕ) → ltb 0 n' ≡ true → Passes {M = M} k true (modify_memory f n n')
  unfolding modify_memory
  Passes-modify_memory f n n' h0 = search (passing_rules, memory_rules, frame_rules) depth 30

  pub Passes-test_memory : (n n' : ℕ) → ltb 0 n' ≡ true → Passes {M = M} k true (test_memory n n')
  unfolding test_memory
  Passes-test_memory n n' h0 = search (passing_rules, memory_rules, frame_rules) depth 30

  pub Passes-clear_memory : (n n' : ℕ) → ltb 0 n' ≡ true → Passes {M = M} k true (clear_memory n n')
  unfolding clear_memory
  Passes-clear_memory n n' h0 = search (passing_rules, memory_rules, frame_rules) depth 30

  pub Passes-modify_accumulator :
      (f : Unary) (b : Reg8) → Passes {M = M} k true (modify_accumulator f b)
  unfolding modify_accumulator
  Passes-modify_accumulator f b = search (passing_rules, memory_rules, frame_rules) depth 30

  pub Passes-branch : (n : ℕ) → Passes {M = M} k true (branch n)
  unfolding branch
  Passes-branch n = search (passing_rules, memory_rules, frame_rules) depth 30

  pub Passes-long_branch : (n n' : ℕ) → ltb 0 n' ≡ true → Passes {M = M} k true (long_branch n n')
  unfolding long_branch
  Passes-long_branch n n' h0 = search (passing_rules, memory_rules, frame_rules) depth 30

  pub Passes-lbra : Passes {M = M} k true lbra
  unfolding lbra
  Passes-lbra = search (passing_rules, memory_rules, frame_rules) depth 30

  pub Passes-lbsr : Passes {M = M} k true lbsr
  unfolding lbsr
  Passes-lbsr = search (passing_rules, memory_rules, frame_rules, Passes-call) depth 30

  pub Passes-bsr : Passes {M = M} k true bsr
  unfolding bsr
  Passes-bsr = search (passing_rules, memory_rules, frame_rules, Passes-call) depth 30

  pub Passes-daa : Passes {M = M} k true daa
  unfolding daa
  Passes-daa = search (passing_rules, memory_rules, frame_rules, Passes-modify_accumulator) depth 30

  pub Passes-change_codes : (f : ℕ → ℕ → ℕ) → Passes {M = M} k true (change_codes f)
  unfolding change_codes
  Passes-change_codes f = search (passing_rules, memory_rules, frame_rules) depth 30

  pub Passes-sex : Passes {M = M} k true sex
  unfolding sex
  Passes-sex = search (passing_rules, memory_rules, frame_rules) depth 30

  pub Passes-exg : Passes {M = M} k true exg
  unfolding exg
  Passes-exg = search (passing_rules, memory_rules, frame_rules, Keeps-exchange) depth 30

  pub Passes-tfr : Passes {M = M} k true tfr
  unfolding tfr
  Passes-tfr = search (passing_rules, memory_rules, frame_rules, Keeps-transfer) depth 30

  pub Passes-abx : Passes {M = M} k true abx
  unfolding abx
  Passes-abx = search (passing_rules, memory_rules, frame_rules) depth 30

  pub Passes-mul : Passes {M = M} k true mul
  unfolding mul
  Passes-mul = search (passing_rules, memory_rules, frame_rules, Keeps-put_mul_codes) depth 30

pub ruleset passing_bodies = (
  Passes-psh, Passes-pul, Passes-call, Passes-swi1, Passes-swi_unmasked, Passes-rti, Passes-rts,
  Passes-modify_memory, Passes-test_memory, Passes-clear_memory, Passes-modify_accumulator,
  Passes-branch, Passes-long_branch, Passes-lbra, Passes-lbsr, Passes-bsr, Passes-daa,
  Passes-change_codes, Passes-sex, Passes-exg, Passes-tfr, Passes-abx, Passes-mul,
)
