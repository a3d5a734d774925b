-- ===== src/Cartridge/Laws.antt =====
-- What a cartridge shows after it is loaded and ejected.
use cutiecoco.Base.{
  ℕ, ◌%◌, ◌≡◌, refl, Bool, true, false, not, ◌&&◌, ◌||◌, none, List, [], arith, ltb, leb, ◌==◌,
  if◌then◌else◌, length, get_or, ◌∙◌, ap, ◌∷◌, Bool-cases, inl, inr,
}
use native.Mathlib.Nat.{mod-eq_of_lt}
use cutiecoco.Cartridge.{
  RomFile, missing, locked, torn, contents, Cartridge, load_rom_pak, eject, read_pak, write_port,
  has_cartridge, max_rom_size,
}
use cutiecoco.Pia.{Pia, set_cart}

-- Every read of a cartridge falls within its ROM: the address within 32K, folded at the ROM's
-- length; without a cartridge it reads 255.
pub read_pak_lem :
    (c : Cartridge) (address : ℕ)
    → read_pak address c
      ≡ (if has_cartridge c then get_or c.rom (address % 0x8000 % length c.rom) 0xff else 0xff)
unfolding read_pak has_cartridge
read_pak_lem c address = elim (Bool-cases (length c.rom == 0)) [
  | inl e ↦ rw e
  | inr e ↦ rw e (elim (Bool-cases (leb (length c.rom) (address % 0x8000))) [
    | inl big ↦ rw big
    | inr small ↦
        rw (small, mod-eq_of_lt {n = address % 0x8000} {m = length c.rom} (ground (arith, small)))
  ])
]

abbrev pub bytes_of : RomFile → List ℕ
bytes_of (contents bytes) = bytes
bytes_of _ = []

-- A file that is read and has 1 to 512K bytes.
abbrev pub is_loadable : RomFile → Bool
is_loadable file = not (length (bytes_of file) == 0) && leb (length (bytes_of file)) max_rom_size

-- Loading succeeds exactly for a file that is read and has 1 to 512K bytes. It then shows the
-- bytes of the file, folded at their number, and tells the PIA; else what the cartridge port shows
-- and the PIA stay as they were.
pub load_rom_pak_lem :
    (file : RomFile) (c : Cartridge) (p : Pia)
    → let (loaded, c', p') = load_rom_pak file c p in
      (loaded ≡ is_loadable file)
      × ((address : ℕ)
          → read_pak address c' ≡ (
              if is_loadable file
              then get_or (bytes_of file) (address % 0x8000 % length (bytes_of file)) 0xff
              else read_pak address c))
      × (p'.cart_inserted ≡ is_loadable file || p.cart_inserted)
unfolding load_rom_pak set_cart
load_rom_pak_lem missing c p = (refl, λ address. unfold read_pak in refl, refl)
load_rom_pak_lem (locked size) c p = elim (Bool-cases (size == 0)) [
  | inl e ↦ rw e (refl, λ address. unfold read_pak in refl, refl)
  | inr e ↦ rw e (elim (Bool-cases (ltb max_rom_size size)) [
    | inl big ↦ rw big (refl, λ address. unfold read_pak in refl, refl)
    | inr small ↦ rw small (refl, λ address. unfold read_pak in refl, refl)
  ])
]
load_rom_pak_lem (torn size) c p = elim (Bool-cases (size == 0)) [
  | inl e ↦ rw e (refl, λ address. unfold read_pak in refl, refl)
  | inr e ↦ rw e (elim (Bool-cases (ltb max_rom_size size)) [
    | inl big ↦ rw big (refl, λ address. unfold read_pak in refl, refl)
    | inr small ↦ rw small (refl, λ address. unfold read_pak in refl, refl)
  ])
]
load_rom_pak_lem (contents bytes) c p = elim (Bool-cases (length bytes == 0)) [
  | inl e ↦ rw e (refl, λ address. unfold read_pak in refl, refl)
  | inr e ↦ elim (Bool-cases (ltb max_rom_size (length bytes))) [
    | inl big ↦ rw (e, big, fits_not big) (refl, λ address. unfold read_pak in refl, refl)
    | inr small ↦
        rw (e, small, fits small)
          (
            refl,
            λ address.
                read_pak_lem (record { rom = bytes; bank_select = 0; last_error = none }) address
                ∙ unfold has_cartridge in rw e,
            refl,
          )
  ]
]
  where
    fits : ltb max_rom_size (length bytes) ≡ false → leb (length bytes) max_rom_size ≡ true
    fits h = ground (arith, h)

    fits_not : ltb max_rom_size (length bytes) ≡ true → leb (length bytes) max_rom_size ≡ false
    fits_not h = ground (arith, h)

-- Ejecting leaves an empty port, which reads 255 everywhere, and withdraws the cartridge's line.
pub eject_lem :
    (c : Cartridge) (p : Pia) (address : ℕ)
    → let (c', p') = eject c p in
      (has_cartridge c' ≡ false) × (read_pak address c' ≡ 0xff) × (p'.cart_inserted ≡ false)
unfolding eject has_cartridge read_pak set_cart
eject_lem c p address = (refl, refl, refl)

-- Writes to the cartridge's ports, in order.
unfoldable pub write_ports : List (ℕ × ℕ) → Cartridge → Cartridge
write_ports [] c = c
write_ports ((port, value) ∷ ws) c = write_ports ws (write_port port value c)

-- The values that go to the bank port, and the last of a list.
abbrev pub bank_values : List (ℕ × ℕ) → List ℕ
bank_values [] = []
bank_values ((port, value) ∷ ws) = if port == 0 then value ∷ bank_values ws else bank_values ws

abbrev pub last_or : ℕ → List ℕ → ℕ
last_or x [] = x
last_or x (y ∷ ys) = last_or y ys

read_pak-write_port :
    (port value address : ℕ) (c : Cartridge)
    → read_pak address (write_port port value c) ≡ read_pak address c
unfolding read_pak write_port
read_pak-write_port port value address c = elim (Bool-cases (port == 0)) [
  | inl e ↦ rw e
  | inr e ↦ rw e
]

read_pak-write_ports :
    (address : ℕ) (ws : List (ℕ × ℕ)) (c : Cartridge)
    → read_pak address (write_ports ws c) ≡ read_pak address c
unfolding write_ports
read_pak-write_ports address [] c = refl
read_pak-write_ports address ((port, value) ∷ ws) c =
    read_pak-write_ports address ws (write_port port value c)
    ∙ read_pak-write_port port value address c

bank_step :
    (port value : ℕ) (ws : List (ℕ × ℕ)) (c : Cartridge)
    → last_or (write_port port value c).bank_select (bank_values ws)
      ≡ last_or c.bank_select (bank_values ((port, value) ∷ ws))
unfolding write_port
bank_step port value ws c = elim (Bool-cases (port == 0)) [ inl e ↦ rw e | inr e ↦ rw e ]

bank_select-write_ports :
    (ws : List (ℕ × ℕ)) (c : Cartridge)
    → (write_ports ws c).bank_select ≡ last_or c.bank_select (bank_values ws)
unfolding write_ports
bank_select-write_ports [] c = refl
bank_select-write_ports ((port, value) ∷ ws) c =
    bank_select-write_ports ws (write_port port value c) ∙ bank_step port value ws c

loaded_bank :
    (file : RomFile) (c : Cartridge) (p : Pia)
    → (load_rom_pak file c p).1.bank_select ≡ (if is_loadable file then 0 else c.bank_select)
unfolding load_rom_pak
loaded_bank missing c p = refl
loaded_bank (locked size) c p = ground arith
loaded_bank (torn size) c p = ground arith
loaded_bank (contents bytes) c p = ground arith

-- Loading succeeds exactly for a file that is read and has 1 to 512K bytes. After it and any
-- writes to the ports of the cartridge the processor reads the bytes of the file at each address
-- within 32K, folded at their number, whatever bank is selected; else it reads what it read
-- before. The bank is the last value that was written to port 0 and, where none was, 0 after a
-- load and else the old one; the cartridge flag of the PIA is set by a load and else stays.
pub load_rom_pak-write_ports :
    (file : RomFile) (ws : List (ℕ × ℕ)) (c : Cartridge) (p : Pia)
    → let (loaded, c', p') = load_rom_pak file c p in
      (loaded ≡ is_loadable file)
      × ((address : ℕ)
          → read_pak address (write_ports ws c') ≡ (
              if is_loadable file
              then get_or (bytes_of file) (address % 0x8000 % length (bytes_of file)) 0xff
              else read_pak address c))
      × ((write_ports ws c').bank_select
          ≡ last_or (if is_loadable file then 0 else c.bank_select) (bank_values ws))
      × (p'.cart_inserted ≡ is_loadable file || p.cart_inserted)
load_rom_pak-write_ports file ws c p =
    let (loaded, reads, inserted) = load_rom_pak_lem file c p in
    let after = (load_rom_pak file c p).1 in
    (
      loaded,
      λ address. read_pak-write_ports address ws after ∙ reads address,
      bank_select-write_ports ws after
          ∙ ap (λ bank. last_or bank (bank_values ws)) (loaded_bank file c p),
      inserted,
    )
