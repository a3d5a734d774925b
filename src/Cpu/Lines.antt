-- ===== src/Cpu/Lines.antt =====
-- The interrupt lines of the processor.
use cutiecoco.Base.{ℕ, ◌≡◌, refl, false, not, ◌&&◌, ◌||◌, ◌==◌}
use cutiecoco.Base.Bits.{bit}
use cutiecoco.Base.BitOps.{bit-set_bit, bit-clear_bit}
use cutiecoco.Calls.{Line}
use cutiecoco.Cpu.{Interrupts, line_bit, cpu_assert_interrupt, cpu_deassert_interrupt}

-- Asserting a line makes it pending and wakes the processor, withdrawing it makes it not pending;
-- neither touches another line.
pub pending_lem :
    (line other : Line) (waiter : ℕ) (c : Interrupts)
    → let pending = bit c.pending_interrupts (line_bit other) in
      let same = line_bit other == line_bit line in
      (bit (cpu_assert_interrupt line waiter c).pending_interrupts (line_bit other)
        ≡ same || pending)
      × (bit (cpu_deassert_interrupt line c).pending_interrupts (line_bit other)
          ≡ not same && pending)
      × ((cpu_assert_interrupt line waiter c).sync_waiting ≡ false)
unfolding cpu_assert_interrupt cpu_deassert_interrupt
pending_lem line other waiter c = (
  bit-set_bit (line_bit line) (line_bit other) c.pending_interrupts,
  bit-clear_bit (line_bit line) (line_bit other) c.pending_interrupts,
  refl,
)
