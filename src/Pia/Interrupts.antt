-- ===== src/Pia/Interrupts.antt =====
-- The sync interrupts of the first PIA and the cartridge interrupt of the second.
use cutiecoco.Base.{
  ℕ, ◌≡◌, ◌≢◌, refl, Bool, true, false, not, ◌&&◌, ◌||◌, [], ◌∷◌, ◌++◌, arith, ◌==◌, if◌then◌else◌,
}
use cutiecoco.Base.Bits.{bit}
use cutiecoco.Base.BitOps.{bit-set_bit}
use cutiecoco.Base.Maps.{update}
use cutiecoco.Calls.{irq, firq, assert_interrupt, deassert_interrupt}
use cutiecoco.Keyboard.{Keyboard}
use cutiecoco.Joystick.{Joystick}
use cutiecoco.Pia.{
  Pia, Phase, falling, rising, any, irq_hs, irq_fs, vertical_sync, assert_cart, pia0_read,
}

-- The edge that control bit 1 selects.
abbrev pub is_active_edge : Phase → Bool → Bool
is_active_edge falling polarity = not polarity
is_active_edge rising polarity = polarity
is_active_edge any polarity = true

-- The delay that an edge of the vertical sync asks for.
abbrev pub delay : Phase → ℕ
delay falling = 4
delay rising = 1
delay any = 1

-- A horizontal sync sets flag 7 of the control register exactly on the edge that bit 1 selects,
-- asks for an IRQ exactly if bit 0 enables it too, and leaves every other bit of the register and
-- every other register of the side as it was.
pub irq_hs_lem :
    (phase : Phase) (p : Pia) (n k : ℕ)
    → let edge = is_active_edge phase (bit (p.rega 1) 1) in
      let (p', calls) = irq_hs phase p in
      (calls ≡ (if edge && bit (p.rega 1) 0 then assert_interrupt irq 1 ∷ [] else []))
      × (bit (p'.rega n) k ≡ (n == 1) && ((k == 7) && edge) || bit (p.rega n) k)
unfolding irq_hs update
irq_hs_lem falling p n k = (ground arith, ground (arith, bit-set_bit 7 k (p.rega 1)))
irq_hs_lem rising p n k = (ground arith, ground (arith, bit-set_bit 7 k (p.rega 1)))
irq_hs_lem any p n k = (ground arith, ground (arith, bit-set_bit 7 k (p.rega 1)))

-- A vertical sync does the same to the other control register, on its two edges, with the delay
-- that the edge calls for; before it, an inserted cartridge that starts by itself raises its flag
-- on the second side and has its interrupt asserted if that is enabled and withdrawn if not.
pub irq_fs_lem :
    (phase : Phase) (p : Pia) (n k : ℕ)
    → phase ≢ any
    → let edge = is_active_edge phase (bit (p.rega 3) 1) in
      let cart = p.cart_inserted && p.cart_auto_start in
      let (p', calls) = irq_fs phase p in
      (calls
        ≡ (if cart
            then (if bit (p.regb 3) 0 then assert_interrupt firq 0 else deassert_interrupt firq)
              ∷ []
            else [])
          ++ (if edge && bit (p.rega 3) 0 then assert_interrupt irq (delay phase) ∷ [] else []))
      × (bit (p'.rega n) k ≡ (n == 3) && ((k == 7) && edge) || bit (p.rega n) k)
      × (bit (p'.regb n) k ≡ (n == 3) && ((k == 7) && cart) || bit (p.regb n) k)
unfolding irq_fs vertical_sync assert_cart update
irq_fs_lem falling p n k h = (
  ground arith,
  ground (arith, bit-set_bit 7 k (p.rega 3)),
  ground (arith, bit-set_bit 7 k (p.regb 3)),
)
irq_fs_lem rising p n k h = (
  ground arith,
  ground (arith, bit-set_bit 7 k (p.rega 3)),
  ground (arith, bit-set_bit 7 k (p.regb 3)),
)
irq_fs_lem any p n k h = absurd (h refl)

-- On its active edge a horizontal sync shows in bit 7 of $FF01 until the program reads $FF00 with
-- the data register selected, and that read clears it.
pub irq_hs_acknowledged :
    (phase : Phase) (p : Pia) (k : Keyboard) (j : Joystick)
    → is_active_edge phase (bit (p.rega 1) 1) ≡ true
    → bit (p.rega 1) 2 ≡ true
    → let p' = (irq_hs phase p).0 in
      (bit (pia0_read 1 k j p').0 7 ≡ true)
      × (bit (pia0_read 1 k j (pia0_read 0 k j p').1).0 7 ≡ false)
unfolding pia0_read irq_hs update
irq_hs_acknowledged falling p k j e s =
    (ground (arith, bit-set_bit 7 7 (p.rega 1)), ground (arith, bit-set_bit 7 2 (p.rega 1)))
irq_hs_acknowledged rising p k j e s =
    (ground (arith, bit-set_bit 7 7 (p.rega 1)), ground (arith, bit-set_bit 7 2 (p.rega 1)))
irq_hs_acknowledged any p k j e s =
    (ground (arith, bit-set_bit 7 7 (p.rega 1)), ground (arith, bit-set_bit 7 2 (p.rega 1)))
