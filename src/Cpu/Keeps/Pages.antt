-- ===== src/Cpu/Keeps/Pages.antt =====
-- The second and third pages of opcodes of emulation/mc6809.cpp, for a property that every
-- assignment keeps.
use cutiecoco.Base.{ℕ}
use cutiecoco.Cpu.Bus.{Bus, Act}
use cutiecoco.Cpu.Registers.{Cpu, Reg16}
use cutiecoco.Cpu.Keeps.Steps.{Stable, Keeps}
use cutiecoco.Cpu.Keeps.Modes.{mode_rules}
use cutiecoco.Cpu.Keeps.Bodies.{body_rules}
use cutiecoco.Cpu.Keeps.Frames.{Keeps-swi_unmasked}
use cutiecoco.Cpu.Rows.Pages.{
  compare_word, load_word, store_at, page2_branch, page2_left, page2_right, page2, p2_opcode,
  break_point, page3, p3_opcode,
}

module _ {P : Cpu → Type 0} {M : Type 0} ⦃stable : Stable P⦄ ⦃bus : Bus M⦄ where
  pub Keeps-compare_word :
      (m : Act M ℕ) (r : Reg16) (n : ℕ) → Keeps P m → Keeps {M = M} P (compare_word m r n)
  unfolding compare_word
  Keeps-compare_word m r n keeps = search (mode_rules, body_rules)

  pub Keeps-load_word :
      (m : Act M ℕ) (r : Reg16) (n : ℕ) → Keeps P m → Keeps {M = M} P (load_word m r n)
  unfolding load_word
  Keeps-load_word m r n keeps = search (mode_rules, body_rules)

  pub Keeps-store_at :
      (m : Act M ℕ) (r : Reg16) (n : ℕ) → Keeps P m → Keeps {M = M} P (store_at m r n)
  unfolding store_at
  Keeps-store_at m r n keeps = search (mode_rules, body_rules)

  pub Keeps-page2_branch : (n : ℕ) → Keeps {M = M} P (page2_branch n)
  unfolding page2_branch
  Keeps-page2_branch n = search (mode_rules, body_rules) depth 40 fits 4000

  pub Keeps-page2_left : (n : ℕ) → Keeps {M = M} P (page2_left n)
  unfolding page2_left
  Keeps-page2_left n =
      search (mode_rules, body_rules, Keeps-compare_word, Keeps-load_word, Keeps-store_at) depth 40
        fits 4000

  pub Keeps-page2_right : (n : ℕ) → Keeps {M = M} P (page2_right n)
  unfolding page2_right
  Keeps-page2_right n =
      search (mode_rules, body_rules, Keeps-load_word, Keeps-store_at) depth 40 fits 4000

  pub Keeps-page2 : (n : ℕ) → Keeps {M = M} P (page2 n)
  unfolding page2
  Keeps-page2 n =
      search
        (
          mode_rules, body_rules, Keeps-page2_branch, Keeps-page2_left, Keeps-page2_right,
          Keeps-swi_unmasked,
        )
        depth 40 fits 4000

  pub Keeps-p2_opcode : Keeps {M = M} P p2_opcode
  unfolding p2_opcode
  Keeps-p2_opcode = search (mode_rules, body_rules, Keeps-page2)

  pub Keeps-break_point : Keeps {M = M} P break_point
  unfolding break_point
  Keeps-break_point = search (mode_rules, body_rules)

  pub Keeps-page3 : (n : ℕ) → Keeps {M = M} P (page3 n)
  unfolding page3
  Keeps-page3 n =
      search (mode_rules, body_rules, Keeps-compare_word, Keeps-break_point, Keeps-swi_unmasked)
        depth 40 fits 4000

  pub Keeps-p3_opcode : Keeps {M = M} P p3_opcode
  unfolding p3_opcode
  Keeps-p3_opcode = search (mode_rules, body_rules, Keeps-page3)

pub ruleset page_rules = (
  mode_rules, body_rules, Keeps-compare_word, Keeps-load_word, Keeps-store_at, Keeps-page2_branch,
  Keeps-page2_left, Keeps-page2_right, Keeps-page2, Keeps-p2_opcode, Keeps-break_point, Keeps-page3,
  Keeps-p3_opcode,
)
