-- ===== src/Pia.antt =====
-- emulation/mc6821.cpp: the two peripheral interface adapters. The first scans the keyboard and
-- the joysticks and takes the sync interrupts; the second drives the DAC, the video mode, the
-- cassette motor and the serial printer, and takes the cartridge interrupt. The four registers of
-- a side are a function of their number. The print monitor and the log calls are left out.
pub mod Capture
pub mod Reads
pub mod Interrupts
pub mod Frames
mod Tests
use Prim.Native.Nat.{bit_and, bit_or}
use cutiecoco.Base.{
  ℕ, ◌+◌, ◌-◌, ◌*◌, ◌/◌, ◌%◌, Bool, true, false, not, ◌&&◌, List, [], ◌∷◌, ◌++◌, ltb, ◌==◌,
  if◌then◌else◌,
}
use cutiecoco.Base.Bits.{bit, of_bool, set_bit}
use cutiecoco.Base.Maps.{update}
use cutiecoco.Calls.{
  Call, irq, firq, assert_interrupt, deassert_interrupt, set_gime_vdg_mode2, motor,
}
use cutiecoco.Joystick
use cutiecoco.Joystick.{Joystick}
use cutiecoco.Keyboard
use cutiecoco.Keyboard.{Keyboard}
use Capture.{Printer, capture_bit}

pub record Pia : Type 0 where
  -- Data and control registers and data directions: `rega`, `regb`, `rega_dd`, `regb_dd`.
  pub rega : ℕ → ℕ
  pub regb : ℕ → ℕ
  pub rega_dd : ℕ → ℕ
  pub regb_dd : ℕ → ℕ
  pub a_sample : ℕ
  pub s_sample : ℕ
  pub c_sample : ℕ
  pub cart_inserted : Bool
  pub cart_auto_start : Bool
  pub printer : Printer

-- `GetMuxState`.
abbrev pub mux_state : Pia → ℕ
mux_state p = of_bool (bit (p.rega 1) 3) + of_bool (bit (p.rega 3) 3) * 2

-- `~x` of a byte.
abbrev pub complement8 : ℕ → ℕ
complement8 x = 255 - x

-- The byte of $FF00: the scan of the selected columns, with the buttons on the lower four lines
-- and the comparator in bit 7.
unfoldable pub keyboard_lines : Pia → Keyboard → Joystick → ℕ
keyboard_lines p k j =
    let key_data = Keyboard.scan (bit_or (p.rega 2) (complement8 (p.rega_dd 2)) % 256) k in
    let joy_buttons = Joystick.get_button_bits j in
    let result = bit_or (bit_and key_data 0xf0) (bit_and (bit_and key_data joy_buttons) 0x0f) in
    bit_or (bit_and result 0x7f)
      (if Joystick.get_comparison_result (mux_state p) j then 0x80 else 0)

-- `rega[n] & 63` written back: reading a data register clears its interrupt flags.
abbrev pub clear_flags : (ℕ → ℕ) → ℕ → ℕ → ℕ
clear_flags regs n = update regs n (regs n % 64)

pub pia0_read : ℕ → Keyboard → Joystick → Pia → ℕ × Pia
pia0_read port k j p =
    if port == 1
    then (p.rega 1, p)
    else if port == 3
    then (p.rega 3, p)
    else if port == 0
    then (if bit (p.rega 1) 2
        then (keyboard_lines p k j, record p { rega = clear_flags p.rega 1 })
        else (p.rega_dd 0, p))
    else if port == 2
    then (if bit (p.rega 3) 2
        then (bit_and (p.rega 2) (p.rega_dd 2), record p { rega = clear_flags p.rega 3 })
        else (p.rega_dd 2, p))
    else (0, p)

-- The port is $20 to $23.
pub pia1_read : ℕ → Pia → ℕ × Pia
pia1_read port p =
    if port == 0x21
    then (p.regb 1, p)
    else if port == 0x23
    then (p.regb 3, p)
    else if port == 0x22
    then (if bit (p.regb 3) 2
        then (bit_and (p.regb 2) (p.regb_dd 2), record p { regb = clear_flags p.regb 3 })
        else (p.regb_dd 2, p))
    else if port == 0x20
    then (if bit (p.regb 1) 2
        then (p.regb 0, record p { regb = clear_flags p.regb 1 })
        else (p.regb_dd 0, p))
    else (0, p)

pub pia0_write : ℕ → ℕ → Pia → Pia
pia0_write byte port p =
    if port == 0
    then (if bit (p.rega 1) 2
        then record p { rega = update p.rega 0 byte }
        else record p { rega_dd = update p.rega_dd 0 byte })
    else if port == 2
    then (if bit (p.rega 3) 2
        then record p { rega = update p.rega 2 byte }
        else record p { rega_dd = update p.rega_dd 2 byte })
    else if port == 1
    then record p { rega = update p.rega 1 (byte % 64) }
    else if port == 3
    then record p { rega = update p.rega 3 (byte % 64) }
    else p

-- The upper six bits of the DAC register: `regb[0] & 0xFC`.
abbrev pub dac_bits : ℕ → ℕ
dac_bits byte = byte / 4 * 4

-- The write of $FF20 with the data register selected; it also starts the joystick's ramp.
pub write_dac : ℕ → Pia → Pia
write_dac byte p =
    let q = record p {
      regb = update p.regb 0 byte;
      printer = capture_bit (byte / 2 % 2) p.printer;
    } in
    if mux_state p == 0
    then (if bit (p.regb 3) 3
        then record q { a_sample = dac_bits byte / 2 }
        else record q { c_sample = dac_bits byte })
    else q

pub pia1_write : ℕ → ℕ → Joystick → Pia → Pia × Joystick × List Call
pia1_write byte port j p =
    if port == 0x20
    then (if bit (p.regb 1) 2
        then (write_dac byte p, Joystick.start_ramp byte j, [])
        else (record p { regb_dd = update p.regb_dd 0 byte }, j, []))
    else if port == 0x22
    then (if bit (p.regb 3) 2
        then (let value = bit_and byte (p.regb_dd 2) in
            (
              record p { regb = update p.regb 2 value; s_sample = of_bool (bit value 1) * 128 },
              j,
              set_gime_vdg_mode2 (value / 8 % 32) ∷ [],
            ))
        else (record p { regb_dd = update p.regb_dd 2 byte }, j, []))
    else if port == 0x21
    then (record p { regb = update p.regb 1 (byte % 64) }, j, motor (of_bool (bit byte 3)) ∷ [])
    else if port == 0x23
    then (record p { regb = update p.regb 3 (byte % 64) }, j, [])
    else (p, j, [])

-- The phases of a sync pulse: `FALLING`, `RISING` and `ANY`.
pub data Phase : Type 0 where
  falling rising any : Phase

-- Sets flag 7 of control register `n` and, if it is enabled, asks for an interrupt.
abbrev pub raise_flag : ℕ → ℕ → Pia → Pia × List Call
raise_flag n waiter p = (
  record p { rega = update p.rega n (set_bit (p.rega n) 7) },
  if bit (p.rega n) 0 then assert_interrupt irq waiter ∷ [] else [],
)

pub irq_hs : Phase → Pia → Pia × List Call
irq_hs falling p = if bit (p.rega 1) 1 then (p, []) else raise_flag 1 1 p
irq_hs rising p = if bit (p.rega 1) 1 then raise_flag 1 1 p else (p, [])
irq_hs any p = raise_flag 1 1 p

pub assert_cart : Pia → Pia × List Call
assert_cart p = (
  record p { regb = update p.regb 3 (set_bit (p.regb 3) 7) },
  if bit (p.regb 3) 0 then assert_interrupt firq 0 ∷ [] else deassert_interrupt firq ∷ [],
)

-- The `switch` of `irq_fs`; a phase other than 0 and 1 does nothing.
pub vertical_sync : Phase → Pia → Pia × List Call
vertical_sync falling p = if bit (p.rega 3) 1 then (p, []) else raise_flag 3 4 p
vertical_sync rising p = if bit (p.rega 3) 1 then raise_flag 3 1 p else (p, [])
vertical_sync any p = (p, [])

abbrev pub after {ℓ} : {A : Type ℓ} → A × List Call → (A → A × List Call) → A × List Call
after (a, calls) f = let (b, more) = f a in (b, calls ++ more)

pub irq_fs : Phase → Pia → Pia × List Call
irq_fs phase p =
    after (if p.cart_inserted && p.cart_auto_start then assert_cart p else (p, []))
      (vertical_sync phase)

pub pia_reset : Pia → Pia
pia_reset p = record p { rega = λ _. 0; regb = λ _. 0; rega_dd = λ _. 0; regb_dd = λ _. 0 }

unfoldable pub set_cart : Bool → Pia → Pia
set_cart line_state p = record p { cart_inserted = line_state }

-- `SetCassetteSample`.
pub set_cassette_sample : ℕ → Pia → Pia
set_cassette_sample sample p =
    let low = p.regb 0 / 2 * 2 in
    record p { regb = update p.regb 0 (if ltb 0x7f sample then low + 1 else low) }

-- `DACState`, and `GetDACSample` for a cartridge without sound: both channels in one word.
abbrev pub dac_state : Pia → ℕ
dac_state p = p.regb 0 * 64

pub get_dac_sample : Pia → ℕ
get_dac_sample p =
    let channel = (p.a_sample + p.s_sample) * 128 in channel * 65536 + channel % 65536

-- `SetCartAutoStart`, given 255 for a query.
pub set_cart_auto_start : ℕ → Pia → Bool × Pia
set_cart_auto_start value p =
    let q = if value == 255 then p else record p { cart_auto_start = not (value == 0) } in
    (q.cart_auto_start, q)

-- `GetCasSample` and `VDG_Mode`.
pub get_cas_sample : Pia → ℕ
get_cas_sample p = p.c_sample

pub vdg_mode_bits : Pia → ℕ
vdg_mode_bits p = p.regb 2 / 8 % 32
