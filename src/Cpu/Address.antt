-- ===== src/Cpu/Address.antt =====
-- `CalculateEA` of emulation/mc6809.cpp, and the addressing modes of the instructions.
use cutiecoco.Base.{ℕ, ◌+◌, ◌-◌, ◌*◌, ◌/◌, ◌%◌, ltb, ◌==◌, if◌then◌else◌}
use cutiecoco.Base.Bits.{u16, bit}
use cutiecoco.Cpu.Bus.{
  Bus, Act, pure, skip, ◌>>=◌, ◌>>◌, modify, gets, get, put, tick, load16, fetch8, fetch16,
}
use cutiecoco.Cpu.Registers.{Cpu, Reg16, reg_x, reg_y, reg_u, reg_s, reg_pc, extend8}

-- `indexableRegisters`.
abbrev pub index_register : ℕ → Reg16
index_register n =
    if n == 0 then reg_x else if n == 1 then reg_y else if n == 2 then reg_u else reg_s

abbrev pub set_ea : ℕ → Cpu → Cpu
set_ea v c = record c { ea = u16 v }

unfoldable pub put_ea : {M : Type 0} → ℕ → Act M Unit
put_ea v = modify (set_ea v)

-- The five-bit offset, with its sign.
abbrev pub offset5 : ℕ → ℕ
offset5 n = if ltb n 16 then n else n + 65504

module _ {M : Type 0} ⦃bus : Bus M⦄ where
  -- `ea=MemRead16(ea)`.
  unfoldable pub indirect : ℕ → Act M Unit
  indirect cycles = do at ← gets (λ c. c.ea); v ← load16 at; put_ea v; tick cycles

  -- `ea` is the register plus an offset; then some cycles.
  unfoldable pub from_register : Reg16 → ℕ → ℕ → Act M Unit
  from_register r offset cycles = do base ← get r; put_ea (base + offset); tick cycles

  unfoldable pub post_increment : Reg16 → ℕ → ℕ → Act M Unit
  post_increment r n cycles = do base ← get r; put_ea base; put r (base + n); tick cycles

  unfoldable pub pre_decrement : Reg16 → ℕ → ℕ → Act M Unit
  pre_decrement r n cycles = do
    base ← get r
    put r (base + (65536 - n))
    put_ea (base + (65536 - n))
    tick cycles

  unfoldable pub from_accumulator : Reg16 → (Cpu → ℕ) → ℕ → Act M Unit
  from_accumulator r accumulator cycles = do
    offset ← gets accumulator
    from_register r offset cycles

  unfoldable pub from_byte : Reg16 → ℕ → Act M Unit
  from_byte r cycles = do v ← fetch8; from_register r (extend8 v) cycles

  unfoldable pub from_word : Reg16 → ℕ → Act M Unit
  from_word r cycles = do v ← fetch16; from_register r v cycles

  unfoldable pub pc_byte : ℕ → Act M Unit
  pc_byte cycles = do at ← get reg_pc; v ← fetch8; put_ea (at + extend8 v + 1); tick cycles

  unfoldable pub pc_word : ℕ → Act M Unit
  pc_word cycles = do at ← get reg_pc; v ← fetch16; put_ea (at + v + 2); tick cycles

  -- Cases 15 and 16.
  unfoldable pub skip_word : ℕ → Act M Unit
  skip_word register = if register == 1 then skip 2 else pure tt

  -- Cases 0 to 16 of the inner `switch`.
  unfoldable pub plain_mode : ℕ → ℕ → Act M Unit
  plain_mode register n =
      let r = index_register register in
      if n == 0
      then post_increment r 1 2
      else if n == 1
      then post_increment r 2 3
      else if n == 2
      then pre_decrement r 1 2
      else if n == 3
      then pre_decrement r 2 3
      else if n == 4
      then from_register r 0 0
      else if n == 5
      then from_accumulator r (λ c. extend8 c.b) 1
      else if n == 6
      then from_accumulator r (λ c. extend8 c.a) 1
      else if n == 7
      then tick 1
      else if n == 8
      then from_byte r 1
      else if n == 9
      then from_word r 4
      else if n == 10
      then tick 1
      else if n == 11
      then from_accumulator r (λ c. c.a * 256 + c.b) 4
      else if n == 12
      then pc_byte 1
      else if n == 13
      then pc_word 5
      else if n == 14
      then tick 4
      else skip_word register

  -- Cases 17 to 31.
  unfoldable pub indirect_mode : ℕ → ℕ → Act M Unit
  indirect_mode register n =
      let r = index_register register in
      if n == 17
      then (post_increment r 2 0 >> indirect 6)
      else if n == 18
      then tick 6
      else if n == 19
      then (pre_decrement r 2 0 >> indirect 6)
      else if n == 20
      then (from_register r 0 0 >> indirect 3)
      else if n == 21
      then (from_accumulator r (λ c. extend8 c.b) 0 >> indirect 4)
      else if n == 22
      then (from_accumulator r (λ c. extend8 c.a) 0 >> indirect 4)
      else if n == 23
      then indirect 4
      else if n == 24
      then (from_byte r 0 >> indirect 4)
      else if n == 25
      then (from_word r 0 >> indirect 7)
      else if n == 26
      then indirect 4
      else if n == 27
      then (from_accumulator r (λ c. c.a * 256 + c.b) 0 >> indirect 7)
      else if n == 28
      then (pc_byte 0 >> indirect 4)
      else if n == 29
      then (pc_word 0 >> indirect 8)
      else if n == 30
      then indirect 7
      else ((fetch16 >>= put_ea) >> indirect 8)

  unfoldable pub calculate_ea : ℕ → Act M ℕ
  calculate_ea postbyte = do
    let register = postbyte / 32 % 4
    let n = postbyte % 32
    (if bit postbyte 7
        then (if ltb n 17 then plain_mode register n else indirect_mode register n)
        else from_register (index_register register) (offset5 n) 1)
    gets (λ c. c.ea)

  -- `dp.Reg | MemRead8(pc.Reg++)`, `CalculateEA(MemRead8(pc.Reg++))`, and `MemRead16(pc.Reg)`, for
  -- which the source adds 2 to `pc` at the end.
  unfoldable pub direct : Act M ℕ
  direct = do low ← fetch8; page ← gets (λ c. c.dp); pure (page * 256 + low)

  unfoldable pub indexed : Act M ℕ
  indexed = fetch8 >>= calculate_ea

  unfoldable pub extended : Act M ℕ
  extended = fetch16
