-- ===== src/Cpu/Alu/Sums.antt =====
-- Codes C and V of the sums and differences of bytes in emulation/mc6809.cpp.
use Prim.Native.Nat.{bit_xor}
use cutiecoco.Base.{ℕ, ◌+◌, ◌-◌, ◌%◌, ◌<◌, ◌≡◌, refl, Bool, not, ◌&&◌, ltb, leb, arith}
use cutiecoco.Base.Bits.{u16, bit, of_bool}
use cutiecoco.Base.BitOps.{xor, bit-bit_xor}
use cutiecoco.Base.Maps.{update}
use cutiecoco.Cpu.{Codes}
use cutiecoco.Cpu.Alu.{sbc8, adc8}
use cutiecoco.Cpu.Alu.Compare.{biased}
use cutiecoco.Cpu.Registers.{carry, overflow}

-- The bytes with a sign are the biased ones less 128: their sum with a carry, and their difference
-- with a borrow, are within -128 and 127.
abbrev pub sum_fits : ℕ → ℕ → ℕ → Bool
sum_fits a m c = leb 128 (biased a + biased m + c) && ltb (biased a + biased m + c) 384

abbrev pub difference_fits : ℕ → ℕ → ℕ → Bool
difference_fits a m c = leb (biased m + c) (biased a + 128) && ltb (biased a) (biased m + c + 128)

module _ (a m : ℕ) (codes : Codes) (ha : a < 256) (hm : m < 256) where
  adc8-overflow :
      (c : Bool)
      → xor (bit (a + m + of_bool c) 8) (bit (bit_xor (bit_xor m (a + m + of_bool c)) a) 7)
        ≡ not (sum_fits a m (of_bool c))
  adc8-overflow c =
      rw (bit-bit_xor 7 (bit_xor m (a + m + of_bool c)) a, bit-bit_xor 7 m (a + m + of_bool c))
        (ground arith)

  sbc8-overflow :
      (c : Bool)
      → xor
          (bit (u16 (65536 + a - m - of_bool c)) 8)
          (bit (bit_xor (bit_xor m (u16 (65536 + a - m - of_bool c))) a) 7)
        ≡ not (difference_fits a m (of_bool c))
  sbc8-overflow c =
      rw
        (
          bit-bit_xor 7 (bit_xor m (u16 (65536 + a - m - of_bool c))) a,
          bit-bit_xor 7 m (u16 (65536 + a - m - of_bool c)),
        )
        (ground arith)

-- ADC and SBC leave the sum and the difference with the carry, C if it does not fit a byte, and V
-- if it does not fit a byte with a sign.
pub adc8-sbc8 :
    (a m : ℕ) (codes : Codes)
    → a < 256
    → m < 256
    → (((adc8 a m codes).0 ≡ (a + m + of_bool (codes carry)) % 256)
        × ((adc8 a m codes).1 carry ≡ ltb 255 (a + m + of_bool (codes carry)))
        × ((adc8 a m codes).1 overflow ≡ not (sum_fits a m (of_bool (codes carry)))))
      × (((sbc8 a m codes).0 ≡ (256 + a - m - of_bool (codes carry)) % 256)
          × ((sbc8 a m codes).1 carry ≡ ltb a (m + of_bool (codes carry)))
          × ((sbc8 a m codes).1 overflow ≡ not (difference_fits a m (of_bool (codes carry)))))
unfolding adc8 sbc8 update
adc8-sbc8 a m codes ha hm = (
  (refl, ground arith, adc8-overflow a m codes ha hm (codes carry)),
  (ground arith, ground arith, sbc8-overflow a m codes ha hm (codes carry)),
)
