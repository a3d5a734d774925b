-- ===== src/Cpu/Progress/Plain.antt =====
-- The rows of emulation/mc6809.cpp over memory and the accumulators move the cycle counter.
use cutiecoco.Base.{ℕ, ◌≡◌, true, ltb}
use cutiecoco.Cpu.Bus.{Bus, Act}
use cutiecoco.Cpu.Registers.{Reg8}
use cutiecoco.Cpu.Keeps.Steps.{Keeps}
use cutiecoco.Cpu.Progress.Clock.{AtLeast, clock-Stable, Passes, passing_rules}
use cutiecoco.Cpu.Progress.Timed.{memory_timed, inherent_timed}
use cutiecoco.Cpu.Progress.Bodies.{passing_bodies}
use cutiecoco.Cpu.Keeps.Modes.{mode_rules}
use cutiecoco.Cpu.Rows.Memory.{
  jump, memory_row, row_00, row_60, row_70, inherent_row, row_40, row_50,
}

module _ {M : Type 0} {k : ℕ} ⦃bus : Bus M⦄ where
  pub Passes-jump : (n n' : ℕ) → ltb 0 n ≡ true → Passes {M = M} k true (jump n n')
  unfolding jump
  Passes-jump n n' h0 = search (passing_rules, passing_bodies, mode_rules) depth 30

  pub Passes-memory_row :
      (m : Act M ℕ) (n n' n'' : ℕ)
      → Keeps (AtLeast k) m
      → ltb 0 n ≡ true
      → ltb 0 n' ≡ true
      → Passes {M = M} k (memory_timed n'') (memory_row m n n' n'')
  unfolding memory_row
  Passes-memory_row m n n' n'' h0 h1 h2 =
      search (passing_rules, passing_bodies, mode_rules, Passes-jump) depth 30

  pub Passes-row_00 : (n : ℕ) → Passes {M = M} k (memory_timed n) (row_00 n)
  unfolding row_00
  Passes-row_00 n = search (passing_rules, passing_bodies, mode_rules, Passes-memory_row) depth 30

  pub Passes-row_60 : (n : ℕ) → Passes {M = M} k (memory_timed n) (row_60 n)
  unfolding row_60
  Passes-row_60 n = search (passing_rules, passing_bodies, mode_rules, Passes-memory_row) depth 30

  pub Passes-row_70 : (n : ℕ) → Passes {M = M} k (memory_timed n) (row_70 n)
  unfolding row_70
  Passes-row_70 n = search (passing_rules, passing_bodies, mode_rules, Passes-memory_row) depth 30

  pub Passes-inherent_row :
      (b : Reg8) (n : ℕ) → Passes {M = M} k (inherent_timed n) (inherent_row b n)
  unfolding inherent_row
  Passes-inherent_row b n = search (passing_rules, passing_bodies, mode_rules) depth 30

  pub Passes-row_40 : (n : ℕ) → Passes {M = M} k (inherent_timed n) (row_40 n)
  unfolding row_40
  Passes-row_40 n = search (passing_rules, passing_bodies, mode_rules, Passes-inherent_row) depth 30

  pub Passes-row_50 : (n : ℕ) → Passes {M = M} k (inherent_timed n) (row_50 n)
  unfolding row_50
  Passes-row_50 n = search (passing_rules, passing_bodies, mode_rules, Passes-inherent_row) depth 30

pub ruleset passing_plain = (
  Passes-jump, Passes-memory_row, Passes-row_00, Passes-row_60, Passes-row_70, Passes-inherent_row,
  Passes-row_40, Passes-row_50,
)
