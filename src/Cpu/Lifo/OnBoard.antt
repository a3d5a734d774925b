-- ===== src/Cpu/Lifo/OnBoard.antt =====
-- Interrupts of emulation/mc6809.cpp on the memory of emulation/tcc1014mmu.cpp: a stack in writable
-- pages is RAM.
use cutiecoco.Base.{
  ℕ, ◌+◌, ◌-◌, ◌≤◌, ◌<◌, ◌≡◌, refl, ◌∙◌, sym, ap, subst, true, false, some_inj, ◌==◌, if◌then◌else◌,
  arith, Bool-cases, ==_iff, inl, inr,
}
use cutiecoco.Base.Bits.{u8, u16}
use cutiecoco.Base.Maps.{update_lem}
use cutiecoco.Cpu.Board.{Board, board_read, board_write, board-Bus, u8-lt}
use cutiecoco.Cpu.Bus.{State}
use cutiecoco.Cpu.Lifo.{Ram}
use cutiecoco.Cpu.Lifo.Interrupts.{Restored, restored}
use cutiecoco.Cpu.Stack.{rti, enter_irq, cpu_nmi}
use cutiecoco.Cpu.Widths.{IsWellFormed}
use cutiecoco.IoBus.{Machine}
use cutiecoco.Memory.Access.{mem_read8-Answers, mem_write8-Accepts}
use cutiecoco.Memory.Words.{with_ram, read_below, write_below}
use cutiecoco.Mmu.{is_writable, Mmu}
use cutiecoco.Mmu.Access.{ram_index}

-- What the processor sees of a byte of RAM.
abbrev board_peek : ℕ → Board → ℕ
board_peek a b = u8 (b.machine.mmu.memory (ram_index b.machine.mmu a))

module _ (base : ℕ) (bound : base + 12 ≤ 0xfe00) where
  -- The twelve bytes from `base` on lie in pages that take writes.
  abbrev AreWritable : Board → Type 0
  AreWritable b = (a : ℕ) → base ≤ a → a < base + 12 → is_writable b.machine.mmu a ≡ true

  same_address : (a : ℕ) → a < base + 12 → a ≡ u16 a
  same_address a high = omega arith

  reads :
      (a : ℕ) (b : Board)
      → base ≤ a
      → a < base + 12
      → AreWritable b
      → (board_read a b).0 ≡ board_peek a b
  unfolding board_read
  reads a b low high w = ap u8 (
      subst
        (λ y.
          (mem_read8-Answers y b.machine b.ready).value
          ≡ b.machine.mmu.memory (ram_index b.machine.mmu a))
        (same_address a high)
        (ap (λ r. r.0)
          (some_inj (
            sym (mem_read8-Answers a b.machine b.ready).answer
            ∙ read_below a b.machine b.ready (omega arith) (w a low high)))))

  read_same : (a : ℕ) (b : Board) → (board_read a b).1.machine.mmu ≡ b.machine.mmu
  unfolding board_read
  read_same a b = (mem_read8-Answers (u16 a) b.machine b.ready).same_mmu

  writes :
      (v a : ℕ) (b : Board)
      → base ≤ a
      → a < base + 12
      → AreWritable b
      → (board_write v a b).machine ≡ with_ram b.machine (ram_index b.machine.mmu a) (u8 v)
  unfolding board_write
  writes v a b low high w =
      subst
        (λ y.
          (mem_write8-Accepts (u8 v) y b.machine (u8-lt v) b.ready).after
          ≡ with_ram b.machine (ram_index b.machine.mmu a) (u8 v))
        (same_address a high)
        (ap (λ r. r.0)
          (some_inj (
            sym (mem_write8-Accepts (u8 v) a b.machine (u8-lt v) b.ready).done
            ∙ write_below (u8 v) a b.machine b.ready (omega arith) (w a low high))))

  peek_after :
      (v a other : ℕ) (b : Board)
      → base ≤ a
      → a < base + 12
      → base ≤ other
      → other < base + 12
      → AreWritable b
      → board_peek other (board_write v a b) ≡ (if other == a then u8 v else board_peek other b)
  peek_after v a other b low high low' high' w =
      ap (λ (x : Machine). u8 (x.mmu.memory (ram_index x.mmu other))) (writes v a b low high w)
      ∙ rw (update_lem m.memory (ram_index m a) (ram_index m other) (u8 v))
          (elim (Bool-cases (other == a)) [
            | inl e ↦ rw ((==_iff other a).0 e) (ground arith)
            | inr e ↦ rw (e, apart e) refl
          ])
    where
      m : Mmu
      m = b.machine.mmu

      apart : (other == a) ≡ false → (ram_index m other == ram_index m a) ≡ false
      apart e = ground (arith, e)

  board-Ram : Ram Board
  unfolding board_read
  board-Ram = record {
    base = base;
    Ok = AreWritable;
    peek = board_peek;
    base-lt = omega arith;
    read8-peek = λ a b low high w. reads a b low high w;
    read8-Ok = λ a b w k low high. rw (read_same a b) (w k low high);
    peek-read8 = λ a other b w. ap (λ (m : Mmu). u8 (m.memory (ram_index m other))) (read_same a b);
    write8-Ok = λ v a b low high w k low' high'. rw (writes v a b low high w) (w k low' high');
    peek-write8 = λ v a other b low high low' high' w. peek_after v a other b low high low' high' w;
  }

-- On the machine RTI right after the entry into an IRQ or an NMI restores every register, the
-- program counter and the stack pointer with them, and every condition code but E, which is then
-- set: if the registers were within their widths and the twelve bytes below the stack pointer lie
-- below $FE00 in pages that take writes.
pub rti-enter_irq :
    (s : State Board)
    → IsWellFormed s.cpu
    → 12 ≤ s.cpu.s
    → s.cpu.s ≤ 0xfe00
    → ((a : ℕ) → s.cpu.s ≤ a + 12 → a < s.cpu.s → is_writable s.memory.machine.mmu a ≡ true)
    → Restored s.cpu s.cpu.s (rti (enter_irq s).1).1.cpu
      × Restored s.cpu s.cpu.s (rti (cpu_nmi s).1).1.cpu
unfolding board-Ram
rti-enter_irq s h low high w =
    restored (board-Ram (s.cpu.s - 12) (omega arith)) s h
      (λ a above below. w a (omega arith) (omega arith)) (omega arith)
