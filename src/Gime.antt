-- ===== src/Gime.antt =====
-- emulation/tcc1014registers.cpp: the registers of the GIME at $FF90 to $FFBF, its interrupts,
-- and the SAM at $FFC0 to $FFFF. A register block that the source lists port by port is a range.
-- `GetInit0`, `VDG_Offset` and `VDG_Modes`, which answer a constant or a field, are left out, and
-- so are the statics that nothing reads (`MPU_Rate`, `InteruptTimer`, `VerticalOffsetRegister`).
pub mod Steering
pub mod Offset
pub mod Effects
pub mod Settings
mod Tests
use cutiecoco.Base.{
  ℕ, ◌+◌, ◌-◌, ◌*◌, ◌/◌, ◌%◌, Bool, true, false, ◌&&◌, ◌||◌, Option, some, none, List, [], ◌∷◌,
  ◌++◌, leb, ◌==◌, if◌then◌else◌,
}
use cutiecoco.Base.Bits.{bit, of_bool, set_bit, clear_bit}
use cutiecoco.Base.Maps.{update}
use cutiecoco.Calls.{
  Call, irq, firq, assert_interrupt, set_compat_mode, set_gime_vmode, set_gime_vres,
  set_gime_border_color, set_gime_pallet, set_gime_horz_offset, set_vertical_offset_register,
  set_gime_vdg_offset, set_gime_vdg_mode, set_vert_interrupt_state, set_horz_interrupt_state,
  set_timer_interrupt_state, set_timer_clock_rate, set_interrupt_timer, set_turbo_mode,
  set_cpu_multiplyer_flag,
}
use cutiecoco.Mmu.{
  Mmu, Page, null, rom, load, set_rom_map, set_map_type, set_vectors, set_mmu_register,
  set_mmu_task, set_mmu_enabled, set_disto_ram_bank,
}

pub record Gime : Type 0 where
  pub registers : ℕ → ℕ
  pub vdg_mode : ℕ
  pub dis_offset : ℕ
  pub enhanced_firq : Bool
  pub enhanced_irq : Bool
  pub last_irq : ℕ
  pub last_firq : ℕ
  pub keyboard_interrupt_enabled : Bool
  -- The pointer `rom`, null before the first `mc6883_reset`.
  pub sam_rom : Page

-- Every write goes to the registers, to the MMU or to other units.
abbrev pub Effect : Type 0
Effect = Gime × Mmu × List Call

unfoldable pub set_init0 : ℕ → Gime → Mmu → Effect
set_init0 byte g m = (
  record g { enhanced_firq = bit byte 4; enhanced_irq = bit byte 5 },
  set_vectors (if bit byte 3 then 8 else 0)
      (set_rom_map (byte % 4) (set_mmu_enabled (of_bool (bit byte 6)) m)),
  set_compat_mode (bit byte 7) ∷ [],
)

unfoldable pub set_init1 : ℕ → Gime → Mmu → Effect
set_init1 byte g m =
    (g, set_mmu_task (byte % 2) m, set_timer_clock_rate (if bit byte 5 then 32 else 0) ∷ [])

-- A source that $FF92 or $FF93 enables.
abbrev pub is_enabled : ℕ → Gime → Bool
is_enabled k g = bit (g.registers 0x92) k || bit (g.registers 0x93) k

-- `SetGimeIRQStearing`, and `SetGimeFIRQStearing` with the same body.
unfoldable pub set_gime_steering : Gime → Mmu → Effect
set_gime_steering g m = (
  record g { keyboard_interrupt_enabled = is_enabled 1 g },
  m,
  set_vert_interrupt_state (is_enabled 3 g)
      ∷ set_horz_interrupt_state (is_enabled 4 g)
      ∷ set_timer_interrupt_state (is_enabled 5 g)
      ∷ [],
)

-- `SetTimerMSB`, and `SetTimerLSB` with the same body.
unfoldable pub set_timer : Gime → Mmu → Effect
set_timer g m =
    (g, m, set_interrupt_timer ((g.registers 0x94 * 256 + g.registers 0x95) % 4096) ∷ [])

-- `SetDistoRamBank` from the register file.
abbrev pub disto_bank : ℕ → Gime → Mmu → Effect
disto_bank byte g m = let (n, calls) = set_disto_ram_bank byte m in (g, n, calls)

-- The `switch` of `GimeWrite`.
unfoldable pub dispatch : ℕ → ℕ → Gime → Mmu → Effect
unfolding set_init0 set_init1 set_gime_steering set_timer
dispatch port byte g m =
    if port == 0x90
    then set_init0 byte g m
    else if port == 0x91
    then set_init1 byte g m
    else if port == 0x92
    then set_gime_steering g m
    else if port == 0x93
    then set_gime_steering g m
    else if port == 0x94
    then set_timer g m
    else if port == 0x95
    then set_timer g m
    else if port == 0x96
    then (g, m, set_turbo_mode (byte % 2) ∷ [])
    else if port == 0x98
    then (g, m, set_gime_vmode byte ∷ [])
    else if port == 0x99
    then (g, m, set_gime_vres byte ∷ [])
    else if port == 0x9a
    then (g, m, set_gime_border_color byte ∷ [])
    else if port == 0x9b
    then disto_bank byte g m
    else if (port == 0x9d) || (port == 0x9e)
    then (g, m, set_vertical_offset_register (g.registers 0x9d * 256 + g.registers 0x9e) ∷ [])
    else if port == 0x9f
    then (g, m, set_gime_horz_offset byte ∷ [])
    else if leb 0xa0 port && leb port 0xaf
    then (g, set_mmu_register port byte m, [])
    else if leb 0xb0 port && leb port 0xbf
    then (g, m, set_gime_pallet (port - 0xb0) (byte % 64) ∷ [])
    else (g, m, [])

unfoldable pub gime_write : ℕ → ℕ → Gime → Mmu → Effect
gime_write port byte g m =
    dispatch port byte (record g { registers = update g.registers port byte }) m

-- A read of a status register resets it.
unfoldable pub gime_read : ℕ → Gime → ℕ × Gime
gime_read port g =
    if port == 0x92
    then (g.last_irq, record g { last_irq = 0 })
    else if port == 0x93
    then (g.last_firq, record g { last_firq = 0 })
    else (g.registers port, g)

-- The common body of the handlers of keyboard, vertical and horizontal interrupts.
abbrev pub assert_source : ℕ → Gime → Gime × List Call
assert_source k g =
    if bit (g.registers 0x93) k && g.enhanced_firq
    then (record g { last_firq = set_bit g.last_firq k }, assert_interrupt firq 0 ∷ [])
    else if bit (g.registers 0x92) k && g.enhanced_irq
    then (record g { last_irq = set_bit g.last_irq k }, assert_interrupt irq 0 ∷ [])
    else (g, [])

pub gime_assert_keyboard_interrupt : Gime → Gime × List Call
gime_assert_keyboard_interrupt g = assert_source 1 g

pub gime_assert_vert_interrupt : Gime → Gime × List Call
gime_assert_vert_interrupt g = assert_source 3 g

pub gime_assert_horz_interrupt : Gime → Gime × List Call
gime_assert_horz_interrupt g = assert_source 4 g

pub gime_assert_timer_interrupt : Gime → Gime × List Call
gime_assert_timer_interrupt g =
    if bit (g.registers 0x93) 5
    then (
      record g { last_firq = set_bit g.last_firq 5 },
      if g.enhanced_firq then assert_interrupt firq 0 ∷ [] else [],
    )
    else if bit (g.registers 0x92) 5
    then (
      record g { last_irq = set_bit g.last_irq 5 },
      if g.enhanced_irq then assert_interrupt irq 0 ∷ [] else [],
    )
    else (g, [])

-- The vectors come from the end of the ROM; `none` is a read through the null pointer.
unfoldable pub sam_read : ℕ → Gime → Mmu → Option ℕ
sam_read port g m =
    if leb 0xf0 port && leb port 0xff then load m g.sam_rom (0x7f00 + port) else some 0

-- Bit `k` of a register takes a value.
abbrev pub put_bit : ℕ → Bool → ℕ → ℕ
put_bit k true x = set_bit (clear_bit x k) k
put_bit k false x = clear_bit x k

-- Each pair of ports clears and sets one bit.
unfoldable pub sam_write : ℕ → Gime → Mmu → Effect
sam_write port g m =
    if leb 0xc6 port && leb port 0xd3
    then (let offset = put_bit ((port - 0xc6) / 2 % 8) (bit (port - 0xc6) 0) g.dis_offset in
        (record g { dis_offset = offset }, m, set_gime_vdg_offset offset ∷ []))
    else if leb 0xc0 port && leb port 0xc5
    then (let mode = put_bit ((port - 0xc0) / 2 % 8) (bit (port - 0xc0) 0) g.vdg_mode in
        (record g { vdg_mode = mode }, m, set_gime_vdg_mode mode ∷ []))
    else if (port == 0xde) || (port == 0xdf)
    then (g, set_map_type (port % 2) m, [])
    else if port == 0xd9
    then (g, m, set_cpu_multiplyer_flag 1 ∷ [])
    else if port == 0xd8
    then (g, m, set_cpu_multiplyer_flag 0 ∷ [])
    else (g, m, [])

-- The pointer to the ROM of the last `MmuInit`; it names that buffer until the next one frees it.
pub mc6883_reset : Gime → Gime
mc6883_reset g = record g { vdg_mode = 0; dis_offset = 0; sam_rom = rom 0 }
