-- ===== src/Cpu/Keeps/Bodies.antt =====
-- The bodies of the instructions of emulation/mc6809.cpp, for a property that every assignment keeps.
use cutiecoco.Base.{ℕ}
use cutiecoco.Cpu.Bus.{Bus}
use cutiecoco.Cpu.Registers.{Cpu, Reg16, Reg8}
use cutiecoco.Cpu.Keeps.Steps.{Stable, Keeps, memory_rules}
use cutiecoco.Cpu.Alu.{Unary, Binary}
use cutiecoco.Cpu.Keeps.Frames.{Keeps-call}
use cutiecoco.Cpu.Operations.{
  modify_memory, test_memory, clear_memory, modify_accumulator, arithmetic8, compare8, result8,
  bit8, store_byte, arithmetic16, compare16, result16, store_word, branch, long_branch, lbra, lbsr,
  bsr, daa, change_codes, sex, abx, put_mul_codes, mul,
}

module _ {P : Cpu → Type 0} {M : Type 0} ⦃stable : Stable P⦄ ⦃bus : Bus M⦄ where
  pub Keeps-modify_memory : (f : Unary) (n n' : ℕ) → Keeps {M = M} P (modify_memory f n n')
  unfolding modify_memory
  Keeps-modify_memory f n n' = search memory_rules depth 40 fits 4000

  pub Keeps-test_memory : (n n' : ℕ) → Keeps {M = M} P (test_memory n n')
  unfolding test_memory
  Keeps-test_memory n n' = search memory_rules

  pub Keeps-clear_memory : (n n' : ℕ) → Keeps {M = M} P (clear_memory n n')
  unfolding clear_memory
  Keeps-clear_memory n n' = search memory_rules

  pub Keeps-modify_accumulator : (f : Unary) (b : Reg8) → Keeps {M = M} P (modify_accumulator f b)
  unfolding modify_accumulator
  Keeps-modify_accumulator f b = search memory_rules depth 40 fits 4000

  pub Keeps-arithmetic8 : (f : Binary) (b : Reg8) (n : ℕ) → Keeps {M = M} P (arithmetic8 f b n)
  unfolding arithmetic8
  Keeps-arithmetic8 f b n = search memory_rules depth 40 fits 4000

  pub Keeps-compare8 : (b : Reg8) (n : ℕ) → Keeps {M = M} P (compare8 b n)
  unfolding compare8
  Keeps-compare8 b n = search memory_rules

  pub Keeps-result8 : (b : Reg8) (n : ℕ) → Keeps {M = M} P (result8 b n)
  unfolding result8
  Keeps-result8 b n = search memory_rules

  pub Keeps-bit8 : (b : Reg8) (n : ℕ) → Keeps {M = M} P (bit8 b n)
  unfolding bit8
  Keeps-bit8 b n = search memory_rules

  pub Keeps-store_byte : (b : Reg8) (n : ℕ) → Keeps {M = M} P (store_byte b n)
  unfolding store_byte
  Keeps-store_byte b n = search memory_rules

  pub Keeps-arithmetic16 : (f : Binary) (r : Reg16) (n : ℕ) → Keeps {M = M} P (arithmetic16 f r n)
  unfolding arithmetic16
  Keeps-arithmetic16 f r n = search memory_rules depth 40 fits 4000

  pub Keeps-compare16 : (r : Reg16) (n : ℕ) → Keeps {M = M} P (compare16 r n)
  unfolding compare16
  Keeps-compare16 r n = search memory_rules

  pub Keeps-result16 : (r : Reg16) (n : ℕ) → Keeps {M = M} P (result16 r n)
  unfolding result16
  Keeps-result16 r n = search memory_rules

  pub Keeps-store_word : (r : Reg16) (n : ℕ) → Keeps {M = M} P (store_word r n)
  unfolding store_word
  Keeps-store_word r n = search memory_rules

  pub Keeps-branch : (n : ℕ) → Keeps {M = M} P (branch n)
  unfolding branch
  Keeps-branch n = search memory_rules depth 40 fits 4000

  pub Keeps-long_branch : (n n' : ℕ) → Keeps {M = M} P (long_branch n n')
  unfolding long_branch
  Keeps-long_branch n n' = search memory_rules depth 40 fits 4000

  pub Keeps-lbra : Keeps {M = M} P lbra
  unfolding lbra
  Keeps-lbra = search memory_rules depth 40 fits 4000

  pub Keeps-lbsr : Keeps {M = M} P lbsr
  unfolding lbsr
  Keeps-lbsr = search (memory_rules, Keeps-call)

  pub Keeps-bsr : Keeps {M = M} P bsr
  unfolding bsr
  Keeps-bsr = search (memory_rules, Keeps-call)

  pub Keeps-daa : Keeps {M = M} P daa
  unfolding daa
  Keeps-daa = search (memory_rules, Keeps-modify_accumulator)

  pub Keeps-change_codes : (f : ℕ → ℕ → ℕ) → Keeps {M = M} P (change_codes f)
  unfolding change_codes
  Keeps-change_codes f = search memory_rules depth 40 fits 4000

  pub Keeps-sex : Keeps {M = M} P sex
  unfolding sex
  Keeps-sex = search memory_rules depth 40 fits 4000

  pub Keeps-abx : Keeps {M = M} P abx
  unfolding abx
  Keeps-abx = search memory_rules

  pub Keeps-put_mul_codes : Keeps {M = M} P put_mul_codes
  unfolding put_mul_codes
  Keeps-put_mul_codes = search memory_rules

  pub Keeps-mul : Keeps {M = M} P mul
  unfolding mul
  Keeps-mul = search (memory_rules, Keeps-put_mul_codes) depth 40 fits 4000

pub ruleset body_rules = (
  memory_rules, Keeps-modify_memory, Keeps-test_memory, Keeps-clear_memory,
  Keeps-modify_accumulator, Keeps-arithmetic8, Keeps-compare8, Keeps-result8, Keeps-bit8,
  Keeps-store_byte, Keeps-arithmetic16, Keeps-compare16, Keeps-result16, Keeps-store_word,
  Keeps-branch, Keeps-long_branch, Keeps-lbra, Keeps-lbsr, Keeps-bsr, Keeps-daa, Keeps-change_codes,
  Keeps-sex, Keeps-abx, Keeps-put_mul_codes, Keeps-mul,
)
