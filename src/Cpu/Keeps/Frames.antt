-- ===== src/Cpu/Keeps/Frames.antt =====
-- The stack instructions and interrupt entries of emulation/mc6809.cpp, for a property that every
-- assignment keeps.
use cutiecoco.Base.{ℕ}
use cutiecoco.Cpu.Bus.{Bus}
use cutiecoco.Cpu.Registers.{Cpu, Reg16, Reg8}
use cutiecoco.Cpu.Keeps.Steps.{Stable, Keeps, memory_rules}
use cutiecoco.Cpu.Stack.{
  push_word, push_byte, pull_word, pull_byte, push_list, pull_list, psh, pul, call, push_entire,
  through_vector, swi1, swi_unmasked, enter_firq, cpu_firq, enter_irq, cpu_irq, cpu_nmi,
  pull_registers, rti, rts,
}

module _ {P : Cpu → Type 0} {M : Type 0} ⦃stable : Stable P⦄ ⦃bus : Bus M⦄ where
  pub Keeps-push_word : (r r' : Reg16) → Keeps {M = M} P (push_word r r')
  unfolding push_word
  Keeps-push_word r r' = search memory_rules

  pub Keeps-push_byte : (r : Reg16) (b : Reg8) → Keeps {M = M} P (push_byte r b)
  unfolding push_byte
  Keeps-push_byte r b = search memory_rules

  pub Keeps-pull_word : (r r' : Reg16) → Keeps {M = M} P (pull_word r r')
  unfolding pull_word
  Keeps-pull_word r r' = search memory_rules

  pub Keeps-pull_byte : (r : Reg16) (b : Reg8) → Keeps {M = M} P (pull_byte r b)
  unfolding pull_byte
  Keeps-pull_byte r b = search memory_rules

  pub Keeps-push_list : (r r' : Reg16) (n : ℕ) → Keeps {M = M} P (push_list r r' n)
  unfolding push_list
  Keeps-push_list r r' n =
      search (memory_rules, Keeps-push_word, Keeps-push_byte) depth 40 fits 4000

  pub Keeps-pull_list : (r r' : Reg16) (n : ℕ) → Keeps {M = M} P (pull_list r r' n)
  unfolding pull_list
  Keeps-pull_list r r' n =
      search (memory_rules, Keeps-pull_word, Keeps-pull_byte) depth 40 fits 4000

  pub Keeps-psh : (r r' : Reg16) → Keeps {M = M} P (psh r r')
  unfolding psh
  Keeps-psh r r' = search (memory_rules, Keeps-push_list)

  pub Keeps-pul : (r r' : Reg16) → Keeps {M = M} P (pul r r')
  unfolding pul
  Keeps-pul r r' = search (memory_rules, Keeps-pull_list)

  pub Keeps-call : (n n' : ℕ) → Keeps {M = M} P (call n n')
  unfolding call
  Keeps-call n n' = search (memory_rules, Keeps-push_word)

  pub Keeps-push_entire : Keeps {M = M} P push_entire
  unfolding push_entire
  Keeps-push_entire = search (memory_rules, Keeps-push_word, Keeps-push_byte) depth 40 fits 4000

  pub Keeps-through_vector : (n : ℕ) → Keeps {M = M} P (through_vector n)
  unfolding through_vector
  Keeps-through_vector n = search memory_rules

  pub Keeps-swi1 : Keeps {M = M} P swi1
  unfolding swi1
  Keeps-swi1 = search (memory_rules, Keeps-push_entire, Keeps-through_vector) depth 40 fits 4000

  pub Keeps-swi_unmasked : (n : ℕ) → Keeps {M = M} P (swi_unmasked n)
  unfolding swi_unmasked
  Keeps-swi_unmasked n = search (memory_rules, Keeps-push_entire, Keeps-through_vector)

  pub Keeps-enter_firq : Keeps {M = M} P enter_firq
  unfolding enter_firq
  Keeps-enter_firq =
      search (memory_rules, Keeps-push_word, Keeps-push_byte, Keeps-through_vector) depth 40 fits
        4000

  pub Keeps-cpu_firq : Keeps {M = M} P cpu_firq
  unfolding cpu_firq
  Keeps-cpu_firq = search (memory_rules, Keeps-enter_firq) depth 40 fits 4000

  pub Keeps-enter_irq : Keeps {M = M} P enter_irq
  unfolding enter_irq
  Keeps-enter_irq =
      search (memory_rules, Keeps-push_entire, Keeps-through_vector) depth 40 fits 4000

  pub Keeps-cpu_irq : Keeps {M = M} P cpu_irq
  unfolding cpu_irq
  Keeps-cpu_irq = search (memory_rules, Keeps-enter_irq) depth 40 fits 4000

  pub Keeps-cpu_nmi : Keeps {M = M} P cpu_nmi
  unfolding cpu_nmi
  Keeps-cpu_nmi = search (memory_rules, Keeps-push_entire, Keeps-through_vector) depth 40 fits 4000

  pub Keeps-pull_registers : Keeps {M = M} P pull_registers
  unfolding pull_registers
  Keeps-pull_registers = search (memory_rules, Keeps-pull_word, Keeps-pull_byte) depth 40 fits 4000

  pub Keeps-rti : Keeps {M = M} P rti
  unfolding rti
  Keeps-rti =
      search (memory_rules, Keeps-pull_word, Keeps-pull_byte, Keeps-pull_registers) depth 40 fits
        4000

  pub Keeps-rts : Keeps {M = M} P rts
  unfolding rts
  Keeps-rts = search (memory_rules, Keeps-pull_word)

pub ruleset frame_rules = (
  Keeps-push_word, Keeps-push_byte, Keeps-pull_word, Keeps-pull_byte, Keeps-push_list,
  Keeps-pull_list, Keeps-psh, Keeps-pul, Keeps-call, Keeps-push_entire, Keeps-through_vector,
  Keeps-swi1, Keeps-swi_unmasked, Keeps-enter_firq, Keeps-cpu_firq, Keeps-enter_irq, Keeps-cpu_irq,
  Keeps-cpu_nmi, Keeps-pull_registers, Keeps-rti, Keeps-rts,
)
