-- ===== src/Cpu/Progress/Instructions.antt =====
-- An instruction that emulation/mc6809.cpp has a `case` for moves the cycle counter.
use cutiecoco.Base.{ℕ, suc, ◌/◌, ◌%◌, ◌≤◌, ◌<◌, ◌≡◌, true, ◌==◌, if◌then◌else◌, arith, inl, inr}
use cutiecoco.Base.{Bool-cases}
use cutiecoco.Cpu.Bus.{Bus, State, ◌>>=◌, fetch8}
use cutiecoco.Cpu.Exec.{instruction_row, do_opcode}
use cutiecoco.Cpu.Rows.Control.{row_10}
use cutiecoco.Cpu.Rows.Pages.{p2_opcode, p3_opcode}
use cutiecoco.Cpu.Keeps.Steps.{Keeps-fetch8}
use cutiecoco.Cpu.Progress.Clock.{AtLeast, clock-Stable, Passes, passing_rules}
use cutiecoco.Cpu.Progress.Timed.{page2_timed, page3_timed, row_timed, timed_at}
use cutiecoco.Cpu.Progress.Plain.{
  Passes-row_00, Passes-row_40, Passes-row_50, Passes-row_60, Passes-row_70,
}
use cutiecoco.Cpu.Progress.Operands.{
  Passes-row_80, Passes-row_90, Passes-row_a0, Passes-row_b0, Passes-row_c0, Passes-row_d0,
  Passes-row_e0, Passes-row_f0,
}
use cutiecoco.Cpu.Progress.Control.{
  Passes-row_10, Passes-row_20, Passes-row_30_low, Passes-row_30_high,
}
use cutiecoco.Cpu.Progress.Pages.{Passes-page2, Passes-page3}

eq_of_test : (m n : ℕ) → m == n ≡ true → m ≡ n
eq_of_test m n e = ground arith

ruleset passing_rows = (
  passing_rules, Passes-row_00, Passes-row_10, Passes-row_20, Passes-row_30_low, Passes-row_30_high,
  Passes-row_40, Passes-row_50, Passes-row_60, Passes-row_70, Passes-row_80, Passes-row_90,
  Passes-row_a0, Passes-row_b0, Passes-row_c0, Passes-row_d0, Passes-row_e0, Passes-row_f0,
)

module _ {M : Type 0} {k : ℕ} (cycle_for : ℕ) (within : suc k ≤ cycle_for) ⦃bus : Bus M⦄ where
  Passes-instruction_row :
      (row n : ℕ) → Passes {M = M} k (row_timed row n) (instruction_row cycle_for row n)
  unfolding instruction_row
  Passes-instruction_row row n = search (passing_rows, within) depth 30

  second_page :
      (s : State M)
      → AtLeast k s.cpu
      → page2_timed (fetch8 s).0 ≡ true
      → AtLeast (suc k) (instruction_row cycle_for 1 0 s).1.cpu
  unfolding instruction_row row_10 p2_opcode ◌>>=◌
  second_page s h t =
      (Passes-page2 (fetch8 s).0).at t (fetch8 s).1 ((Keeps-fetch8 {P = AtLeast k}).at s h)

  third_page :
      (s : State M)
      → AtLeast k s.cpu
      → page3_timed (fetch8 s).0 ≡ true
      → AtLeast (suc k) (instruction_row cycle_for 1 1 s).1.cpu
  unfolding instruction_row row_10 p3_opcode ◌>>=◌
  third_page s h t =
      (Passes-page3 (fetch8 s).0).at t (fetch8 s).1 ((Keeps-fetch8 {P = AtLeast k}).at s h)

  -- The opcode has been read.
  dispatched :
      (op : ℕ) (s : State M)
      → AtLeast k s.cpu
      → (if op == 0x10
          then page2_timed (fetch8 s).0
          else if op == 0x11
          then page3_timed (fetch8 s).0
          else row_timed (op / 16) (op % 16))
        ≡ true
      → AtLeast (suc k) (instruction_row cycle_for (op / 16) (op % 16) s).1.cpu
  dispatched op s h = elim (Bool-cases (op == 0x10)) [
    | inl e ↦ λ t. rw (eq_of_test op 0x10 e) (second_page s h (rw e at t))
    | inr e ↦ elim (Bool-cases (op == 0x11)) [
      | inl e' ↦ λ t. rw (eq_of_test op 0x11 e') (third_page s h (rw (e, e') at t))
      | inr e' ↦ λ t. (Passes-instruction_row (op / 16) (op % 16)).at (rw (e, e') at t) s h
    ]
  ]

  pub do_opcode-AtLeast :
      (s : State M)
      → AtLeast k s.cpu
      → timed_at s ≡ true
      → AtLeast (suc k) (do_opcode cycle_for s).1.cpu
  unfolding do_opcode timed_at ◌>>=◌
  do_opcode-AtLeast s h t =
      let (op, s') = fetch8 s in dispatched op s' ((Keeps-fetch8 {P = AtLeast k}).at s h) t

module _ {M : Type 0} ⦃bus : Bus M⦄ where
  -- An instruction with a `case` of its own, behind its prefix too, takes at least one cycle when it
  -- starts before the end of the slice; the undocumented reset is the only exception.
  pub do_opcode-timed_at :
      (cycle_for : ℕ) (s : State M)
      → timed_at s ≡ true
      → s.cpu.cycles < cycle_for
      → s.cpu.cycles < (do_opcode cycle_for s).1.cpu.cycles
  do_opcode-timed_at cycle_for s t within = do_opcode-AtLeast cycle_for within s (omega arith) t
