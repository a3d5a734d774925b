-- ===== src/Cpu/Progress/Operands.antt =====
-- The rows 0x80 to 0xF0 of emulation/mc6809.cpp move the cycle counter.
use cutiecoco.Base.{ℕ, ◌+◌, ◌≡◌, true, ltb}
use cutiecoco.Cpu.Bus.{Bus, Act}
use cutiecoco.Cpu.Registers.{Reg8}
use cutiecoco.Cpu.Keeps.Steps.{Keeps}
use cutiecoco.Cpu.Progress.Clock.{AtLeast, clock-Stable, Passes, passing_rules}
use cutiecoco.Cpu.Progress.Timed.{byte_timed, full_timed, left_timed, right_timed}
use cutiecoco.Cpu.Progress.Bodies.{passing_bodies}
use cutiecoco.Cpu.Keeps.Modes.{mode_rules}
use cutiecoco.Cpu.Keeps.Bodies.{body_rules}
use cutiecoco.Cpu.Keeps.Operands.{Keeps-combine8}
use cutiecoco.Cpu.Rows.Accumulator.{
  byte_row, row_left, row_right, row_80, row_90, row_a0, row_b0, row_c0, row_d0, row_e0, row_f0,
}

module _ {M : Type 0} {k : ℕ} ⦃bus : Bus M⦄ where
  pub Passes-byte_row :
      (b : Reg8) (m : Act M ℕ) (n n' : ℕ)
      → Keeps (AtLeast k) m
      → ltb 0 n ≡ true
      → Passes {M = M} k (byte_timed n') (byte_row b m n n')
  unfolding byte_row
  Passes-byte_row b m n n' h0 h1 =
      search (passing_rules, passing_bodies, mode_rules, body_rules, Keeps-combine8) depth 30

  pub Passes-row_left :
      (m : Act M ℕ) (n n' : ℕ)
      → Keeps (AtLeast k) m
      → ltb 0 n ≡ true
      → ltb 0 (n + 1) ≡ true
      → ltb 0 (n + 2) ≡ true
      → ltb 0 (n + 3) ≡ true
      → Passes {M = M} k (full_timed n') (row_left m n n')
  unfolding row_left
  Passes-row_left m n n' h0 h1 h2 h3 h4 =
      search (passing_rules, passing_bodies, mode_rules, body_rules, Passes-byte_row) depth 30

  pub Passes-row_right :
      (m : Act M ℕ) (n n' : ℕ)
      → Keeps (AtLeast k) m
      → ltb 0 n ≡ true
      → ltb 0 (n + 1) ≡ true
      → ltb 0 (n + 2) ≡ true
      → Passes {M = M} k (full_timed n') (row_right m n n')
  unfolding row_right
  Passes-row_right m n n' h0 h1 h2 h3 =
      search (passing_rules, passing_bodies, mode_rules, body_rules, Passes-byte_row) depth 30

  pub Passes-row_80 : (n : ℕ) → Passes {M = M} k (left_timed n) (row_80 n)
  unfolding row_80
  Passes-row_80 n =
      search (passing_rules, passing_bodies, mode_rules, body_rules, Passes-byte_row) depth 30

  pub Passes-row_90 : (n : ℕ) → Passes {M = M} k (full_timed n) (row_90 n)
  unfolding row_90
  Passes-row_90 n =
      search (passing_rules, passing_bodies, mode_rules, body_rules, Passes-row_left) depth 30

  pub Passes-row_a0 : (n : ℕ) → Passes {M = M} k (full_timed n) (row_a0 n)
  unfolding row_a0
  Passes-row_a0 n =
      search (passing_rules, passing_bodies, mode_rules, body_rules, Passes-row_left) depth 30

  pub Passes-row_b0 : (n : ℕ) → Passes {M = M} k (full_timed n) (row_b0 n)
  unfolding row_b0
  Passes-row_b0 n =
      search (passing_rules, passing_bodies, mode_rules, body_rules, Passes-row_left) depth 30

  pub Passes-row_c0 : (n : ℕ) → Passes {M = M} k (right_timed n) (row_c0 n)
  unfolding row_c0
  Passes-row_c0 n =
      search (passing_rules, passing_bodies, mode_rules, body_rules, Passes-byte_row) depth 30

  pub Passes-row_d0 : (n : ℕ) → Passes {M = M} k (full_timed n) (row_d0 n)
  unfolding row_d0
  Passes-row_d0 n =
      search (passing_rules, passing_bodies, mode_rules, body_rules, Passes-row_right) depth 30

  pub Passes-row_e0 : (n : ℕ) → Passes {M = M} k (full_timed n) (row_e0 n)
  unfolding row_e0
  Passes-row_e0 n =
      search (passing_rules, passing_bodies, mode_rules, body_rules, Passes-row_right) depth 30

  pub Passes-row_f0 : (n : ℕ) → Passes {M = M} k (full_timed n) (row_f0 n)
  unfolding row_f0
  Passes-row_f0 n =
      search (passing_rules, passing_bodies, mode_rules, body_rules, Passes-row_right) depth 30

pub ruleset passing_operands = (
  Passes-byte_row, Passes-row_left, Passes-row_right, Passes-row_80, Passes-row_90, Passes-row_a0,
  Passes-row_b0, Passes-row_c0, Passes-row_d0, Passes-row_e0, Passes-row_f0,
)
