-- ===== src/Cpu/Operations.antt =====
-- The instructions of emulation/mc6809.cpp by their bodies, over an address or an operand.
use Prim.Native.Nat.{bit_and}
use cutiecoco.Base.{ℕ, ◌+◌, ◌*◌, Bool, true, false, not, ◌||◌, ltb, ◌==◌, if◌then◌else◌}
use cutiecoco.Base.Bits.{bit}
use cutiecoco.Base.Maps.{update}
use cutiecoco.Base.BitOps.{xor}
use cutiecoco.Cpu.{Codes}
use cutiecoco.Cpu.Alu.{Unary, Binary, test16, tst8, clr8, cmp8, logic8, logic16, cmp16, daa8}
use cutiecoco.Cpu.Bus.{
  Bus, Act, pure, update_codes, update_word, put_codes, skip, ◌>>=◌, ◌>>◌, gets, get, put, put_byte,
  tick, load8, store8, load16, store16, fetch8, fetch16,
}
use cutiecoco.Cpu.Registers.{
  Reg16, Reg8, reg_d, reg_x, reg_pc, reg_a, reg_b, reg_cc, get8, get16, extend8, carry, overflow,
  zero_code, negative,
}
use cutiecoco.Cpu.Stack.{call}

-- The condition of the branches with the low nibble of the opcode, long and short.
unfoldable pub condition : ℕ → Codes → Bool
condition n cc =
    if n == 0
    then true
    else if n == 1
    then false
    else if n == 2
    then not (cc carry || cc zero_code)
    else if n == 3
    then cc carry || cc zero_code
    else if n == 4
    then not (cc carry)
    else if n == 5
    then cc carry
    else if n == 6
    then not (cc zero_code)
    else if n == 7
    then cc zero_code
    else if n == 8
    then not (cc overflow)
    else if n == 9
    then cc overflow
    else if n == 10
    then not (cc negative)
    else if n == 11
    then cc negative
    else if n == 12
    then not (xor (cc negative) (cc overflow))
    else if n == 13
    then xor (cc overflow) (cc negative)
    else if n == 14
    then not (cc zero_code || xor (cc negative) (cc overflow))
    else cc zero_code || xor (cc negative) (cc overflow)

module _ {M : Type 0} ⦃bus : Bus M⦄ where
  -- A read, an operation and a write at one address.
  unfoldable pub modify_memory : Unary → ℕ → ℕ → Act M Unit
  modify_memory operation address cycles = do
    v ← load8 address
    codes ← gets (λ c. c.codes)
    put_codes (operation v codes).1
    store8 (operation v codes).0 address
    tick cycles

  unfoldable pub test_memory : ℕ → ℕ → Act M Unit
  test_memory address cycles = do
    v ← load8 address
    update_codes (λ c. (tst8 v c.codes).1)
    tick cycles

  unfoldable pub clear_memory : ℕ → ℕ → Act M Unit
  clear_memory address cycles = do
    store8 0 address
    update_codes (λ c. (clr8 0 c.codes).1)
    tick cycles

  -- The same operations on an accumulator.
  unfoldable pub modify_accumulator : Unary → Reg8 → Act M Unit
  modify_accumulator operation r = do
    v ← gets (get8 r)
    codes ← gets (λ c. c.codes)
    put_byte r (operation v codes).0
    put_codes (operation v codes).1
    tick 2

  -- An accumulator and an operand; `cmp` keeps the accumulator.
  unfoldable pub arithmetic8 : Binary → Reg8 → ℕ → Act M Unit
  arithmetic8 operation r operand = do
    v ← gets (get8 r)
    codes ← gets (λ c. c.codes)
    put_byte r (operation v operand codes).0
    put_codes (operation v operand codes).1

  unfoldable pub compare8 : Reg8 → ℕ → Act M Unit
  compare8 r operand = update_codes λ c. (cmp8 (get8 r c) operand c.codes).1

  -- `and`, `eor`, `or` and `ld` by the value that they leave, and `bit`.
  unfoldable pub result8 : Reg8 → ℕ → Act M Unit
  result8 r v = do put_byte r v; update_codes (λ c. (logic8 v c.codes))

  unfoldable pub bit8 : Reg8 → ℕ → Act M Unit
  bit8 r operand = update_codes λ c. (logic8 (bit_and (get8 r c) operand) c.codes)

  unfoldable pub store_byte : Reg8 → ℕ → Act M Unit
  store_byte r address = do
    v ← gets (get8 r)
    store8 v address
    update_codes (λ c. (logic8 v c.codes))

  unfoldable pub arithmetic16 : Binary → Reg16 → ℕ → Act M Unit
  arithmetic16 operation r operand = do
    v ← get r
    codes ← gets (λ c. c.codes)
    put r (operation v operand codes).0
    put_codes (operation v operand codes).1

  unfoldable pub compare16 : Reg16 → ℕ → Act M Unit
  compare16 r operand = update_codes λ c. (cmp16 (get16 r c) operand c.codes).1

  unfoldable pub result16 : Reg16 → ℕ → Act M Unit
  result16 r v = do put r v; update_codes (λ c. (logic16 v c.codes))

  unfoldable pub store_word : Reg16 → ℕ → Act M Unit
  store_word r address = do v ← get r; store16 v address; update_codes (λ c. (logic16 v c.codes))

  -- A short branch reads its offset only if it is taken; a long one takes a cycle more then.
  unfoldable pub branch : ℕ → Act M Unit
  branch n = do
    taken ← gets (λ c. condition n c.codes)
    at ← get reg_pc
    (if taken then (load8 at >>= λ v. put reg_pc (at + extend8 v)) else pure tt)
    skip 1
    tick 3

  unfoldable pub long_branch : ℕ → ℕ → Act M Unit
  long_branch n cycles = do
    taken ← gets (λ c. condition n c.codes)
    at ← get reg_pc
    (if taken then ((load16 at >>= λ v. put reg_pc (at + v)) >> tick 1) else pure tt)
    skip 2
    tick cycles

  -- `LBRA`, `LBSR` and `BSR`.
  unfoldable pub lbra : Act M Unit
  lbra = do offset ← fetch16; at ← get reg_pc; put reg_pc (at + offset); tick 5

  unfoldable pub lbsr : Act M Unit
  lbsr = do offset ← fetch16; at ← get reg_pc; call (at + offset) 9

  unfoldable pub bsr : Act M Unit
  bsr = do offset ← fetch8; at ← get reg_pc; call (at + extend8 offset) 7

  unfoldable pub daa : Act M Unit
  daa = modify_accumulator daa8 reg_a

  -- `ORCC` and `ANDCC`.
  unfoldable pub change_codes : (ℕ → ℕ → ℕ) → Act M Unit
  change_codes operation = do
    operand ← fetch8
    codes ← gets (get8 reg_cc)
    put_byte reg_cc (operation codes operand)
    tick 3

  unfoldable pub sex : Act M Unit
  sex = do
    b ← gets (get8 reg_b)
    put_byte reg_a (if bit b 7 then 255 else 0)
    update_codes (λ c. (test16 (get16 reg_d c) c.codes))
    tick 2

  unfoldable pub abx : Act M Unit
  abx = do update_word reg_x (λ c. c.x + c.b); tick 3

  -- Bit 7 of B, which is then the low byte of the product, in C.
  unfoldable pub put_mul_codes : Act M Unit
  put_mul_codes =
      update_codes λ c. update (update c.codes carry (ltb 0x7f c.b)) zero_code (get16 reg_d c == 0)

  unfoldable pub mul : Act M Unit
  mul = do update_word reg_d (λ c. c.a * c.b); put_mul_codes; tick 11
