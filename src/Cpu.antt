-- ===== src/Cpu.antt =====
-- emulation/mc6809.cpp: the condition codes of the 6809 as a byte, and its interrupt inputs. The
-- numbers of the lines are those of MachineDefs.h; tracing is left out.
pub mod Flags
pub mod Registers
pub mod Bus
pub mod Alu
pub mod Address
pub mod Stack
pub mod Operations
pub mod Transfers
pub mod Rows
pub mod Exec
pub mod Keeps
pub mod Widths
pub mod Progress
pub mod Board
pub mod Lifo
pub mod Lines
mod Tests
use cutiecoco.Base.{ℕ, zero, suc, ◌-◌, Bool, true, false, ltb, if◌then◌else◌}
use cutiecoco.Base.Bits.{bit, set_bit, clear_bit}
use cutiecoco.Calls.{Line, irq, firq, nmi}

-- `cc[8]`.
abbrev pub Codes : Type 0
Codes = ℕ → Bool

unfoldable pub set_cc_flags : ℕ → Codes → Codes
set_cc_flags bincc codes i = if ltb i 8 then bit bincc i else codes i

-- The first `count` rounds of the loop of `get_cc_flags`.
unfoldable pub collect : (count : ℕ) → Codes → ℕ
collect zero codes = 0
collect (suc count) codes =
    let bincc = collect count codes in if codes count then set_bit bincc count else bincc

unfoldable pub get_cc_flags : Codes → ℕ
get_cc_flags codes = collect 8 codes

pub record Interrupts : Type 0 where
  pub pending_interrupts : ℕ
  pub irq_waiter : ℕ
  pub sync_waiting : Bool
  pub in_interrupt : Bool

-- `Interupt - 1`.
abbrev pub line_bit : Line → ℕ
line_bit irq = 0
line_bit firq = 1
line_bit nmi = 2

unfoldable pub cpu_assert_interrupt : Line → ℕ → Interrupts → Interrupts
cpu_assert_interrupt line waiter c = record c {
  sync_waiting = false;
  pending_interrupts = set_bit c.pending_interrupts (line_bit line);
  irq_waiter = waiter;
}

unfoldable pub cpu_deassert_interrupt : Line → Interrupts → Interrupts
cpu_deassert_interrupt line c = record c {
  pending_interrupts = clear_bit c.pending_interrupts (line_bit line);
  in_interrupt = false;
}
