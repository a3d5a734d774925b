-- ===== src/Cpu/Alu/Compare.antt =====
-- The comparisons of emulation/mc6809.cpp and the conditions of its branches.
use Prim.Native.Nat.{bit_xor}
use cutiecoco.Base.{ℕ, ◌+◌, ◌-◌, ◌%◌, ◌<◌, ◌≡◌, refl, Bool, true, false, not, ltb, leb, ◌==◌, arith}
use cutiecoco.Base.Bits.{u8}
use cutiecoco.Base.BitOps.{xor, bit-bit_xor}
use cutiecoco.Base.Maps.{update}
use cutiecoco.Cpu.{Codes}
use cutiecoco.Cpu.Alu.{cmp8}
use cutiecoco.Cpu.Operations.{condition}
use cutiecoco.Cpu.Registers.{carry, overflow, zero_code, negative}

xor_comm : (b c : Bool) → xor b c ≡ xor c b
xor_comm true true = refl
xor_comm true false = refl
xor_comm false true = refl
xor_comm false false = refl

-- A byte moved so that its order is that of the signed numbers.
abbrev pub biased : ℕ → ℕ
biased x = (x + 128) % 256

cmp8-carry : (a m : ℕ) (codes : Codes) → a < 256 → m < 256 → (cmp8 a m codes).1 carry ≡ ltb a m
unfolding cmp8 update
cmp8-carry a m codes ha hm = ground arith

cmp8-zero : (a m : ℕ) (codes : Codes) → a < 256 → m < 256 → (cmp8 a m codes).1 zero_code ≡ (a == m)
unfolding cmp8 update
cmp8-zero a m codes ha hm = ground arith

-- Codes N and V together are the order of the signed numbers.
cmp8-signed :
    (a m : ℕ) (codes : Codes)
    → a < 256
    → m < 256
    → xor ((cmp8 a m codes).1 negative) ((cmp8 a m codes).1 overflow) ≡ ltb (biased a) (biased m)
unfolding cmp8 update
cmp8-signed a m codes ha hm =
    rw (bit-bit_xor 7 (bit_xor m (u8 (256 + a - m))) a, bit-bit_xor 7 m (u8 (256 + a - m)))
      (ground arith)

module _ (a m : ℕ) (codes : Codes) (ha : a < 256) (hm : m < 256) where
  abbrev after : Codes
  after = (cmp8 a m codes).1

  unsigned_conditions :
      (condition 2 after ≡ ltb m a)
      × (condition 3 after ≡ leb a m)
      × (condition 4 after ≡ leb m a)
      × (condition 5 after ≡ ltb a m)
      × (condition 6 after ≡ not (a == m))
      × (condition 7 after ≡ (a == m))
  unfolding condition
  unsigned_conditions =
      rw (cmp8-carry a m codes ha hm, cmp8-zero a m codes ha hm)
        (ground arith, ground arith, ground arith, refl, refl, refl)

  signed_conditions :
      (condition 12 after ≡ leb (biased m) (biased a))
      × (condition 13 after ≡ ltb (biased a) (biased m))
      × (condition 14 after ≡ ltb (biased m) (biased a))
      × (condition 15 after ≡ leb (biased a) (biased m))
  unfolding condition
  signed_conditions =
      rw
        (
          xor_comm (after overflow) (after negative),
          cmp8-signed a m codes ha hm,
          cmp8-zero a m codes ha hm,
        )
        (ground arith, refl, ground arith, ground arith)

-- After CMP of two bytes every branch compares them: BHI, BLS, BHS, BLO, BNE and BEQ as numbers
-- without a sign, BGE, BLT, BGT and BLE as numbers with one.
pub condition-cmp8 :
    (a m : ℕ) (codes : Codes)
    → a < 256
    → m < 256
    → ((condition 2 (cmp8 a m codes).1 ≡ ltb m a)
        × (condition 3 (cmp8 a m codes).1 ≡ leb a m)
        × (condition 4 (cmp8 a m codes).1 ≡ leb m a)
        × (condition 5 (cmp8 a m codes).1 ≡ ltb a m)
        × (condition 6 (cmp8 a m codes).1 ≡ not (a == m))
        × (condition 7 (cmp8 a m codes).1 ≡ (a == m)))
      × ((condition 12 (cmp8 a m codes).1 ≡ leb (biased m) (biased a))
          × (condition 13 (cmp8 a m codes).1 ≡ ltb (biased a) (biased m))
          × (condition 14 (cmp8 a m codes).1 ≡ ltb (biased m) (biased a))
          × (condition 15 (cmp8 a m codes).1 ≡ leb (biased a) (biased m)))
condition-cmp8 a m codes ha hm =
    (unsigned_conditions a m codes ha hm, signed_conditions a m codes ha hm)
