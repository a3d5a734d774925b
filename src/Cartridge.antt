-- ===== src/Cartridge.antt =====
-- emulation/src/cartridge.cpp: the ROM cartridge in the cartridge port. The file system is a value
-- that says how far reading the file gets; names, messages and the lock are left out, and so is
-- `calculateOffset`, which nothing calls.
pub mod Laws
mod Tests
use cutiecoco.Base.{
  ℕ, ◌%◌, Bool, true, false, not, Option, some, none, List, [], ◌∷◌, leb, ltb, ◌==◌, if◌then◌else◌,
  length, get_or,
}
use cutiecoco.Pia.{Pia, set_cart}

-- A path that names no file, a file of a size that cannot be opened or not be read to its end,
-- and a file that is read.
pub data RomFile : Type 0 where
  missing : RomFile
  locked : ℕ → RomFile
  torn : ℕ → RomFile
  contents : List ℕ → RomFile

abbrev pub file_size : RomFile → ℕ
file_size missing = 0
file_size (locked size) = size
file_size (torn size) = size
file_size (contents bytes) = length bytes

pub data LoadError : Type 0 where
  file_not_found empty_file too_large open_failed read_failed : LoadError

pub record Cartridge : Type 0 where
  pub rom : List ℕ
  pub bank_select : ℕ
  pub last_error : Option LoadError

-- `MAX_ROM_SIZE`.
abbrev pub max_rom_size : ℕ
max_rom_size = 524288

abbrev fail : LoadError → Cartridge → Pia → Bool × Cartridge × Pia
fail error c p = (false, record c { last_error = some error }, p)

-- After the size is accepted.
abbrev read_file : RomFile → Cartridge → Pia → Bool × Cartridge × Pia
read_file missing c p = fail open_failed c p
read_file (locked size) c p = fail open_failed c p
read_file (torn size) c p = fail read_failed c p
read_file (contents bytes) c p =
    (true, record { rom = bytes; bank_select = 0; last_error = none }, set_cart true p)

abbrev is_missing : RomFile → Bool
is_missing missing = true
is_missing _ = false

-- `CartridgeManager::load`; the PIA learns that a cartridge is in.
pub load_rom_pak : RomFile → Cartridge → Pia → Bool × Cartridge × Pia
load_rom_pak file c p =
    if is_missing file
    then fail file_not_found c p
    else if file_size file == 0
    then fail empty_file c p
    else if ltb max_rom_size (file_size file)
    then fail too_large c p
    else read_file file c p

pub eject : Cartridge → Pia → Cartridge × Pia
eject c p = (record { rom = []; bank_select = 0; last_error = none }, set_cart false p)

unfoldable pub has_cartridge : Cartridge → Bool
has_cartridge c = not (length c.rom == 0)

unfoldable pub read_pak : ℕ → Cartridge → ℕ
read_pak address c =
    if length c.rom == 0
    then 0xff
    else (let masked = address % 0x8000 in
        if leb (length c.rom) masked
        then get_or c.rom (masked % length c.rom) 0xff
        else get_or c.rom masked 0xff)

unfoldable pub write_port : ℕ → ℕ → Cartridge → Cartridge
write_port port value c = if port == 0 then record c { bank_select = value } else c

unfoldable pub read_port : ℕ → Cartridge → ℕ
read_port port c = 0xff

pub reset : Cartridge → Cartridge
reset c = record c { bank_select = 0 }
