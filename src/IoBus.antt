-- ===== src/IoBus.antt =====
-- emulation/iobus.cpp: the dispatch of the ports at $FF00 to $FFFF to the chips, over a machine
-- that holds them all. Port ranges that the source lists case by case are intervals.
pub mod Reach
pub mod Tests
use cutiecoco.Base.{
  ℕ, ◌%◌, Bool, true, false, ◌&&◌, ◌||◌, Option, some, none, List, [], ◌∷◌, leb, ◌==◌,
  if◌then◌else◌,
}
use cutiecoco.Calls.{Call}
use cutiecoco.Cartridge.{Cartridge, read_port, write_port}
use cutiecoco.Gime.{Gime, gime_read, gime_write, sam_read, sam_write}
use cutiecoco.Joystick.{Joystick}
use cutiecoco.Keyboard.{Keyboard}
use cutiecoco.Mmu.{Mmu}
use cutiecoco.Pia.{Pia, pia0_read, pia0_write, pia1_read, pia1_write}

pub record Machine : Type 0 where
  pub mmu : Mmu
  pub gime : Gime
  pub pia : Pia
  pub keyboard : Keyboard
  pub joystick : Joystick
  pub cartridge : Cartridge

abbrev pub is_pia0 : ℕ → Bool
is_pia0 port = leb port 3

abbrev pub is_pia1 : ℕ → Bool
is_pia1 port = leb 0x20 port && leb port 0x23

abbrev pub is_gime : ℕ → Bool
is_gime port = leb 0x90 port && leb port 0xbf

abbrev pub is_sam : ℕ → Bool
is_sam port = leb 0xc0 port && leb port 0xdf

abbrev pub is_vector : ℕ → Bool
is_vector port = leb 0xf0 port && leb port 0xff

abbrev with_value : Machine → Option ℕ → Option (ℕ × Machine)
with_value s none = none
with_value s (some value) = some (value, s)

-- A read can change the state of the chip that answers; `none` is a read of the SAM before its
-- first reset.
unfoldable pub port_read : ℕ → Machine → Option (ℕ × Machine)
port_read address s =
    let port = address % 256 in
    if is_pia0 port
    then (let (value, p) = pia0_read port s.keyboard s.joystick s.pia in
        some (value, record s { pia = p }))
    else if is_pia1 port
    then (let (value, p) = pia1_read port s.pia in some (value, record s { pia = p }))
    else if is_sam port || is_vector port
    then with_value s (sam_read port s.gime s.mmu)
    else if is_gime port
    then (let (value, g) = gime_read port s.gime in some (value, record s { gime = g }))
    else some (read_port port s.cartridge, s)

unfoldable pub port_write : ℕ → ℕ → Machine → Machine × List Call
port_write byte address s =
    let port = address % 256 in
    if is_pia0 port
    then (record s { pia = pia0_write byte port s.pia }, [])
    else if is_pia1 port
    then (let (p, j, calls) = pia1_write byte port s.joystick s.pia in
        (record s { pia = p; joystick = j }, calls))
    else if is_sam port
    then (let (g, m, calls) = sam_write port s.gime s.mmu in
        (record s { gime = g; mmu = m }, calls))
    else if is_gime port
    then (let (g, m, calls) = gime_write port byte s.gime s.mmu in
        (record s { gime = g; mmu = m }, calls))
    else (record s { cartridge = write_port port byte s.cartridge }, [])
