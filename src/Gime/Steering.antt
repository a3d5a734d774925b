-- ===== src/Gime/Steering.antt =====
-- The routing of the GIME's interrupts to FIRQ and IRQ, and their acknowledgement.
use cutiecoco.Base.{
  ℕ, ◌≡◌, Bool, true, false, not, ◌&&◌, ◌||◌, List, [], ◌∷◌, arith, ◌==◌, if◌then◌else◌,
}
use cutiecoco.Base.Bits.{bit}
use cutiecoco.Base.BitOps.{bit-set_bit}
use cutiecoco.Calls.{Call, irq, firq, assert_interrupt}
use cutiecoco.Gime.{
  Gime, gime_read, gime_assert_keyboard_interrupt, gime_assert_vert_interrupt,
  gime_assert_horz_interrupt, gime_assert_timer_interrupt,
}

pub data Source : Type 0 where
  keyboard vert horz timer : Source

-- The bit of a source in $FF92 and $FF93.
abbrev pub source_bit : Source → ℕ
source_bit keyboard = 1
source_bit vert = 3
source_bit horz = 4
source_bit timer = 5

pub handler : Source → Gime → Gime × List Call
handler keyboard = gime_assert_keyboard_interrupt
handler vert = gime_assert_vert_interrupt
handler horz = gime_assert_horz_interrupt
handler timer = gime_assert_timer_interrupt

-- Only the timer shows in a status register that its line does not have enabled.
abbrev pub shows_when_disabled : Source → Bool
shows_when_disabled timer = true
shows_when_disabled _ = false

-- Whether a source is steered to the FIRQ, and else whether it is steered to the IRQ.
abbrev pub to_firq : Source → Gime → Bool
to_firq s g = bit (g.registers 0x93) (source_bit s) && (g.enhanced_firq || shows_when_disabled s)

abbrev pub to_irq : Source → Gime → Bool
to_irq s g =
    not (to_firq s g)
    && (bit (g.registers 0x92) (source_bit s) && (g.enhanced_irq || shows_when_disabled s))

-- The flag raised in a status register, by the number of the bit.
abbrev pub raised : Source → Bool → ℕ → ℕ → Bool
raised s on status k = (k == source_bit s) && on || bit status k

-- An interrupt source goes to the FIRQ if that is selected and else to the IRQ, never to both:
-- the processor is called exactly if the line is enabled, the bit of the source appears in the
-- status register of that line, other bits stay, and the other status register stays whole.
pub handler_lem :
    (s : Source) (g : Gime) (k : ℕ)
    → let (g', calls) = handler s g in
      (calls ≡ (
        if to_firq s g && g.enhanced_firq
        then assert_interrupt firq 0 ∷ []
        else if to_irq s g && g.enhanced_irq
        then assert_interrupt irq 0 ∷ []
        else []))
      × (bit (gime_read 0x93 g').0 k ≡ raised s (to_firq s g) g.last_firq k)
      × (bit (gime_read 0x92 g').0 k ≡ raised s (to_irq s g) g.last_irq k)
unfolding handler gime_read gime_assert_keyboard_interrupt gime_assert_vert_interrupt
    gime_assert_horz_interrupt gime_assert_timer_interrupt
handler_lem keyboard g k = (
  ground arith,
  ground (arith, bit-set_bit 1 k g.last_firq),
  ground (arith, bit-set_bit 1 k g.last_irq),
)
handler_lem vert g k = (
  ground arith,
  ground (arith, bit-set_bit 3 k g.last_firq),
  ground (arith, bit-set_bit 3 k g.last_irq),
)
handler_lem horz g k = (
  ground arith,
  ground (arith, bit-set_bit 4 k g.last_firq),
  ground (arith, bit-set_bit 4 k g.last_irq),
)
handler_lem timer g k = (
  ground arith,
  ground (arith, bit-set_bit 5 k g.last_firq),
  ground (arith, bit-set_bit 5 k g.last_irq),
)

-- A read of a status register acknowledges: it clears that register and leaves the other one and
-- all else that a read can see.
pub gime_read_acknowledges :
    (g : Gime) (port : ℕ)
    → let after92 = (gime_read 0x92 g).1 in
      let after93 = (gime_read 0x93 g).1 in
      ((gime_read port after92).0 ≡ (if port == 0x92 then 0 else (gime_read port g).0))
      × ((gime_read port after93).0 ≡ (if port == 0x93 then 0 else (gime_read port g).0))
unfolding gime_read
gime_read_acknowledges g port = (ground arith, ground arith)
