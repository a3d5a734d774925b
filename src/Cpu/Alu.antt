-- ===== src/Cpu/Alu.antt =====
-- The arithmetic of emulation/mc6809.cpp: the result of an operation and the condition codes that
-- it leaves. The bodies that the source repeats for each addressing mode are written once.
pub mod Compare
pub mod Sums
use Prim.Native.Nat.{bit_xor}
use cutiecoco.Base.{
  ℕ, ◌+◌, ◌-◌, ◌*◌, ◌/◌, ◌%◌, Bool, true, false, not, ◌&&◌, ltb, ◌==◌, if◌then◌else◌,
}
use cutiecoco.Base.Bits.{u8, u16, bit, of_bool}
use cutiecoco.Base.BitOps.{xor}
use cutiecoco.Base.Maps.{update}
use cutiecoco.Cpu.{Codes}
use cutiecoco.Cpu.Registers.{carry, overflow, zero_code, negative, half_carry}

-- `cc[N]= NTEST8(r); cc[Z]= ZTEST(r);` and the same at 16 bits.
abbrev pub test8 : ℕ → Codes → Codes
test8 r codes = update (update codes negative (ltb 0x7f r)) zero_code (r == 0)

abbrev pub test16 : ℕ → Codes → Codes
test16 r codes = update (update codes negative (ltb 0x7fff r)) zero_code (r == 0)

-- `OTEST8` and `OTEST16`, of which only bits 7 and 15 matter.
abbrev pub overflow8 : Bool → ℕ → ℕ → ℕ → Bool
overflow8 c a b r = xor c (bit (bit_xor (bit_xor a b) r) 7)

abbrev pub overflow16 : Bool → ℕ → ℕ → ℕ → Bool
overflow16 c a b r = xor c (bit (bit_xor (bit_xor a b) r) 15)

abbrev pub set_cv : Bool → Bool → Codes → Codes
set_cv c v codes = update (update codes carry c) overflow v

-- An operation on one byte, or on a register and an operand.
abbrev pub Unary : Type 0
Unary = ℕ → Codes → ℕ × Codes

abbrev pub Binary : Type 0
Binary = ℕ → ℕ → Codes → ℕ × Codes

unfoldable pub neg8 : Unary
neg8 v codes = let r = u8 (256 - v) in (r, test8 r (set_cv (ltb 0 r) (v == 0x80) codes))

unfoldable pub com8 : Unary
com8 v codes = let r = 255 - v in (r, set_cv true false (test8 r codes))

unfoldable pub lsr8 : Unary
lsr8 v codes =
    let r = v / 2 in
    (r, update (update (update codes carry (bit v 0)) zero_code (r == 0)) negative false)

unfoldable pub ror8 : Unary
ror8 v codes =
    let r = v / 2 + of_bool (codes carry) * 128 in (r, test8 r (update codes carry (bit v 0)))

unfoldable pub asr8 : Unary
asr8 v codes =
    let r = v / 2 + of_bool (bit v 7) * 128 in (r, test8 r (update codes carry (bit v 0)))

unfoldable pub asl8 : Unary
asl8 v codes = let r = u8 (v * 2) in (r, test8 r (set_cv (bit v 7) (xor (bit v 7) (bit v 6)) codes))

unfoldable pub rol8 : Unary
rol8 v codes =
    let r = u8 (v * 2) + of_bool (codes carry) in
    (r, test8 r (set_cv (bit v 7) (xor (bit v 7) (bit v 6)) codes))

unfoldable pub dec8 : Unary
dec8 v codes = let r = u8 (v + 255) in (r, test8 r (update codes overflow (r == 0x7f)))

unfoldable pub inc8 : Unary
inc8 v codes = let r = u8 (v + 1) in (r, test8 r (update codes overflow (r == 0x80)))

unfoldable pub tst8 : Unary
tst8 v codes = (v, test8 v (update codes overflow false))

unfoldable pub clr8 : Unary
clr8 v codes = (0, update (update (set_cv false false codes) negative false) zero_code true)

unfoldable pub sub8 : Binary
sub8 a m codes =
    let t = u16 (65536 + a - m) in
    let c = bit t 8 in (u8 t, test8 (u8 t) (set_cv c (overflow8 c m t a) codes))

unfoldable pub sbc8 : Binary
sbc8 a m codes =
    let t = u16 (65536 + a - m - of_bool (codes carry)) in
    let c = bit t 8 in (u8 t, test8 (u8 t) (set_cv c (overflow8 c m t a) codes))

-- A comparison keeps the register: the first component is the difference.
unfoldable pub cmp8 : Binary
cmp8 a m codes =
    let t = u8 (256 + a - m) in let c = ltb a t in (t, test8 t (set_cv c (overflow8 c m t a) codes))

unfoldable pub add8 : Binary
add8 a m codes =
    let t = a + m in
    let c = bit t 8 in
    (
      u8 t,
      test8 (u8 t) (
          set_cv c (overflow8 c m t a) (update codes half_carry (bit (bit_xor (bit_xor a m) t) 4))),
    )

unfoldable pub adc8 : Binary
adc8 a m codes =
    let t = a + m + of_bool (codes carry) in
    let c = bit t 8 in
    (
      u8 t,
      test8 (u8 t) (
          set_cv c (overflow8 c m t a) (update codes half_carry (bit (bit_xor (bit_xor a t) m) 4))),
    )

-- A result that leaves the carry alone: `and`, `or`, `eor`, loads and stores.
unfoldable pub logic8 : ℕ → Codes → Codes
logic8 r codes = test8 r (update codes overflow false)

unfoldable pub logic16 : ℕ → Codes → Codes
logic16 r codes = test16 r (update codes overflow false)

-- `temp32` has 32 bits.
unfoldable pub sub16 : Binary
sub16 d m codes =
    let t = (4294967296 + d - m) % 4294967296 in
    let c = bit t 16 in (u16 t, test16 (u16 t) (set_cv c (overflow16 c t m d) codes))

unfoldable pub add16 : Binary
add16 d m codes =
    let t = d + m in
    let c = bit t 16 in (u16 t, test16 (u16 t) (set_cv c (overflow16 c t m d) codes))

unfoldable pub cmp16 : Binary
cmp16 d m codes =
    let t = u16 (65536 + d - m) in
    let c = ltb d t in (t, test16 t (set_cv c (overflow16 c m t d) codes))

-- `DAA`, with the carry that comes in.
unfoldable pub daa8 : Unary
daa8 a codes =
    let high = a / 16 * 16 in
    let low = a % 16 in
    let six = if codes half_carry then true else ltb 9 low in
    let sixty =
      if ltb 0x80 high && ltb 9 low then true else if ltb 0x90 high then true else codes carry in
    let t = a + ((if six then 0x06 else 0) + (if sixty then 0x60 else 0)) in
    (u8 t, test8 (u8 t) (update codes carry (if codes carry then true else bit t 8)))
