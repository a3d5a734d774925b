-- ===== src/Cpu/Transfers.antt =====
-- `EXG` and `TFR` of emulation/mc6809.cpp, and the registers by the numbers of their postbytes.
use cutiecoco.Base.{ℕ, ◌+◌, ◌*◌, ◌/◌, ◌%◌, ◌==◌, if◌then◌else◌}
use cutiecoco.Base.Bits.{bit}
use cutiecoco.Cpu.{get_cc_flags}
use cutiecoco.Cpu.Bus.{Bus, Act, ◌>>=◌, ◌>>◌, modify, tick, fetch8}
use cutiecoco.Cpu.Registers.{
  Cpu, reg_d, reg_x, reg_y, reg_u, reg_s, reg_pc, reg_a, reg_b, reg_dp, reg_cc, get16, set16, set8,
}

-- `MC6809ReadTfrExgRegister` and `MC6809ReadExgRegister`, by the number of the register.
unfoldable pub read_tfr_exg_register : ℕ → Cpu → ℕ
unfolding get_cc_flags
read_tfr_exg_register n c =
    if n == 0
    then get16 reg_d c
    else if n == 1
    then c.x
    else if n == 2
    then c.y
    else if n == 3
    then c.u
    else if n == 4
    then c.s
    else if n == 5
    then c.pc
    else if n == 8
    then 0xff00 + c.a
    else if n == 9
    then 0xff00 + c.b
    else if n == 10
    then get_cc_flags c.codes * 256 + get_cc_flags c.codes
    else if n == 11
    then c.dp * 256 + c.dp
    else 0xffff

unfoldable pub read_exg_register : ℕ → Cpu → ℕ
unfolding get_cc_flags
read_exg_register n c =
    if n == 0
    then get16 reg_d c
    else if n == 1
    then c.x
    else if n == 2
    then c.y
    else if n == 3
    then c.u
    else if n == 4
    then c.s
    else if n == 5
    then c.pc
    else if n == 8
    then 0xff00 + c.a
    else if n == 9
    then 0xff00 + c.b
    else if n == 10
    then 0xff00 + get_cc_flags c.codes
    else if n == 11
    then 0xff00 + c.dp
    else 0xffff

unfoldable pub write_tfr_exg_register : ℕ → ℕ → Cpu → Cpu
write_tfr_exg_register n v c =
    if n == 0
    then set16 reg_d v c
    else if n == 1
    then set16 reg_x v c
    else if n == 2
    then set16 reg_y v c
    else if n == 3
    then set16 reg_u v c
    else if n == 4
    then set16 reg_s v c
    else if n == 5
    then set16 reg_pc v c
    else if n == 8
    then set8 reg_a v c
    else if n == 9
    then set8 reg_b v c
    else if n == 10
    then set8 reg_cc v c
    else if n == 11
    then set8 reg_dp v c
    else c

-- The exchange of `EXG` with its postbyte, and the move of `TFR`.
unfoldable pub exchange : ℕ → Cpu → Cpu
unfolding write_tfr_exg_register
exchange p c =
    let first = p / 16 in
    let second = p % 16 in
    let first_value =
      if bit p 7 then read_tfr_exg_register first c else read_exg_register first c in
    let second_value =
      if bit p 7 then read_tfr_exg_register second c else read_exg_register second c in
    write_tfr_exg_register first second_value (write_tfr_exg_register second first_value c)

unfoldable pub transfer : ℕ → Cpu → Cpu
unfolding write_tfr_exg_register
transfer p c = write_tfr_exg_register (p % 16) (read_tfr_exg_register (p / 16) c) c

module _ {M : Type 0} ⦃bus : Bus M⦄ where
  unfoldable pub exg : Act M Unit
  exg = do p ← fetch8; modify (exchange p); tick 8

  unfoldable pub tfr : Act M Unit
  tfr = do p ← fetch8; modify (transfer p); tick 6
