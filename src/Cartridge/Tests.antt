-- ===== src/Cartridge/Tests.antt =====
-- The theorems of the cartridge at a ROM of four bytes.
use cutiecoco.Base.{
  ℕ, ◌%◌, ◌≡◌, true, false, ◌||◌, none, List, [], ◌∷◌, if◌then◌else◌, get_or, length,
}
use cutiecoco.Cartridge.{RomFile, contents, Cartridge, read_pak, load_rom_pak}
use cutiecoco.Cartridge.Laws.{
  is_loadable, bytes_of, write_ports, bank_values, last_or, load_rom_pak-write_ports,
}
use cutiecoco.Pia.{Pia}
use cutiecoco.Pia.Capture.{stopped}

abbrev no_cartridge : Cartridge
no_cartridge = record { rom = []; bank_select = 0; last_error = none }

abbrev four_bytes : RomFile
four_bytes = contents (1 ∷ 2 ∷ 3 ∷ 4 ∷ [])

abbrev bank_two : List (ℕ × ℕ)
bank_two = (0, 2) ∷ (0x40, 7) ∷ []

abbrev quiet : Pia
quiet = record {
  rega = λ n. 0;
  regb = λ n. 0;
  rega_dd = λ n. 0;
  regb_dd = λ n. 0;
  a_sample = 0;
  s_sample = 0;
  c_sample = 0;
  cart_inserted = false;
  cart_auto_start = true;
  printer = stopped;
}

load_rom_pak-write_ports_example :
    let (loaded, c', p') = load_rom_pak four_bytes no_cartridge quiet in
    (loaded ≡ is_loadable four_bytes)
    × ((address : ℕ)
        → read_pak address (write_ports bank_two c') ≡ (
            if is_loadable four_bytes
            then get_or (bytes_of four_bytes) (address % 0x8000 % length (bytes_of four_bytes)) 0xff
            else read_pak address no_cartridge))
    × ((write_ports bank_two c').bank_select
        ≡ last_or (if is_loadable four_bytes then 0 else 0) (bank_values bank_two))
    × (p'.cart_inserted ≡ is_loadable four_bytes || false)
load_rom_pak-write_ports_example = load_rom_pak-write_ports four_bytes bank_two no_cartridge quiet
