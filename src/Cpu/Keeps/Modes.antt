-- ===== src/Cpu/Keeps/Modes.antt =====
-- The addressing modes of emulation/mc6809.cpp, for a property that every assignment keeps.
use cutiecoco.Base.{ℕ}
use cutiecoco.Cpu.Bus.{Bus}
use cutiecoco.Cpu.Registers.{Cpu, Reg16}
use cutiecoco.Cpu.Keeps.Steps.{Stable, Keeps, memory_rules}
use cutiecoco.Cpu.Address.{
  indirect, from_register, post_increment, pre_decrement, from_accumulator, from_byte, from_word,
  pc_byte, pc_word, skip_word, plain_mode, indirect_mode, calculate_ea, direct, indexed, extended,
}

module _ {P : Cpu → Type 0} {M : Type 0} ⦃stable : Stable P⦄ ⦃bus : Bus M⦄ where
  pub Keeps-indirect : (n : ℕ) → Keeps {M = M} P (indirect n)
  unfolding indirect
  Keeps-indirect n = search memory_rules depth 40 fits 4000

  pub Keeps-from_register : (r : Reg16) (n n' : ℕ) → Keeps {M = M} P (from_register r n n')
  unfolding from_register
  Keeps-from_register r n n' = search memory_rules

  pub Keeps-post_increment : (r : Reg16) (n n' : ℕ) → Keeps {M = M} P (post_increment r n n')
  unfolding post_increment
  Keeps-post_increment r n n' = search memory_rules depth 40 fits 4000

  pub Keeps-pre_decrement : (r : Reg16) (n n' : ℕ) → Keeps {M = M} P (pre_decrement r n n')
  unfolding pre_decrement
  Keeps-pre_decrement r n n' = search memory_rules depth 40 fits 4000

  pub Keeps-from_accumulator :
      (r : Reg16) (f : Cpu → ℕ) (n : ℕ) → Keeps {M = M} P (from_accumulator r f n)
  unfolding from_accumulator
  Keeps-from_accumulator r f n = search (memory_rules, Keeps-from_register)

  pub Keeps-from_byte : (r : Reg16) (n : ℕ) → Keeps {M = M} P (from_byte r n)
  unfolding from_byte
  Keeps-from_byte r n = search (memory_rules, Keeps-from_register)

  pub Keeps-from_word : (r : Reg16) (n : ℕ) → Keeps {M = M} P (from_word r n)
  unfolding from_word
  Keeps-from_word r n = search (memory_rules, Keeps-from_register)

  pub Keeps-pc_byte : (n : ℕ) → Keeps {M = M} P (pc_byte n)
  unfolding pc_byte
  Keeps-pc_byte n = search memory_rules depth 40 fits 4000

  pub Keeps-pc_word : (n : ℕ) → Keeps {M = M} P (pc_word n)
  unfolding pc_word
  Keeps-pc_word n = search memory_rules depth 40 fits 4000

  pub Keeps-skip_word : (n : ℕ) → Keeps {M = M} P (skip_word n)
  unfolding skip_word
  Keeps-skip_word n = search memory_rules depth 40 fits 4000

  pub Keeps-plain_mode : (n n' : ℕ) → Keeps {M = M} P (plain_mode n n')
  unfolding plain_mode
  Keeps-plain_mode n n' =
      search
        (
          memory_rules, Keeps-from_register, Keeps-post_increment, Keeps-pre_decrement,
          Keeps-from_accumulator, Keeps-from_byte, Keeps-from_word, Keeps-pc_byte, Keeps-pc_word,
          Keeps-skip_word,
        )
        depth 40 fits 4000

  pub Keeps-indirect_mode : (n n' : ℕ) → Keeps {M = M} P (indirect_mode n n')
  unfolding indirect_mode
  Keeps-indirect_mode n n' =
      search
        (
          memory_rules, Keeps-indirect, Keeps-from_register, Keeps-post_increment,
          Keeps-pre_decrement, Keeps-from_accumulator, Keeps-from_byte, Keeps-from_word,
          Keeps-pc_byte, Keeps-pc_word,
        )
        depth 40 fits 4000

  pub Keeps-calculate_ea : (n : ℕ) → Keeps {M = M} P (calculate_ea n)
  unfolding calculate_ea
  Keeps-calculate_ea n =
      search (memory_rules, Keeps-from_register, Keeps-plain_mode, Keeps-indirect_mode) depth 40
        fits 4000

  pub Keeps-direct : Keeps {M = M} P direct
  unfolding direct
  Keeps-direct = search memory_rules

  pub Keeps-indexed : Keeps {M = M} P indexed
  unfolding indexed
  Keeps-indexed = search (memory_rules, Keeps-calculate_ea)

  pub Keeps-extended : Keeps {M = M} P extended
  unfolding extended
  Keeps-extended = search memory_rules

pub ruleset mode_rules = (
  memory_rules, Keeps-indirect, Keeps-from_register, Keeps-post_increment, Keeps-pre_decrement,
  Keeps-from_accumulator, Keeps-from_byte, Keeps-from_word, Keeps-pc_byte, Keeps-pc_word,
  Keeps-skip_word, Keeps-plain_mode, Keeps-indirect_mode, Keeps-calculate_ea, Keeps-direct,
  Keeps-indexed, Keeps-extended,
)
